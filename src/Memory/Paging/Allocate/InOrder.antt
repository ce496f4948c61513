-- ===== src/Memory/Paging/Allocate/InOrder.antt =====
-- The pages that `KernelAllocateVirtualPages` gives out one after another, as long as none is freed.
use literate_os.Common.{
  ℕ, zero, suc, ◌+◌, ◌*◌, ◌/◌, ◌%◌, ◌^◌, ◌≤◌, ◌<◌, ◌≡◌, refl, ap, ◌∙◌, bit_and, bit_or, true, false,
  some, ◌==◌, ==_iff, leb, ◌&&◌, arith, Bool-cases, inl, inr,
}
use literate_os.Common.Bits.{
  u32, add32, bit, bit-bit_or, bit-bit_and, bit_and-pow, bit-le-one, not32,
}
use literate_os.Memory.Paging.{
  Paging, page_size, page_present, page_writable, page_frame, page_directory_index,
  page_table_index, set_page_frame, set_flags, map_page, map_pages, map_virtual_pages, table_phys,
  identity_page, identity_map, initialize_virtual_memory,
}
use literate_os.Memory.Paging.Frames.{page_directory_index-aligned, page_table_index-mod}
use literate_os.Memory.Paging.Allocate.{
  Search, is_present, find_run, mark_run, kernel_run_of, kernel_allocate_virtual_pages, all_pages,
}
use literate_os.Memory.Paging.Allocate.Laws.{result-some, mark_run_lem}

-- The pages up to `last` are present, and no others.
pub record HasFirst (last : ℕ) (d : Paging) : Type 0 where
  pub within : (q : ℕ) → q ≤ last → is_present d q ≡ 1
  pub behind : (q : ℕ) → last < q → is_present d q ≡ 0

-- The search counts free pages until it has enough of them.
find_run-counts :
    (left n amount : ℕ) (s : Search) (d : Paging)
    → ((q : ℕ) → n ≤ q → is_present d q ≡ 0)
    → s.counter < amount
    → amount ≤ s.counter + left
    → find_run left n amount s d ≡ some (record s { counter = amount })
unfolding find_run
find_run-counts zero n amount s d free more enough = absurd (omega arith)
find_run-counts (suc left) n amount s d free more enough =
    let here : (is_present d n == 0) ≡ true = (==_iff _ _).1 (free n (omega arith)) in
    elim (Bool-cases (leb amount (s.counter + 1))) [
      | inl full ↦
          let all : s.counter + 1 ≡ amount = ground arith in
          rw (here, full) (ap (λ (c : ℕ). some (record s { counter = c })) all)
      | inr not_yet ↦
          rw (here, not_yet)
            (find_run-counts left (n + 1) amount (record s { counter = s.counter + 1 }) d
              (λ q above. free q (omega arith)) (ground arith) (omega arith))
    ]

-- It starts at the last present page, which it takes for the first one of the run.
find_run-after :
    (left n last amount : ℕ) (s : Search) (d : Paging)
    → HasFirst last d
    → n ≤ last
    → 0 < amount
    → last + amount < n + left
    → find_run left n amount s d
      ≡ some (record { table = last / 1024; offset = last % 1024; counter = amount })
unfolding find_run
find_run-after zero n last amount s d first le pos enough = absurd (omega arith)
find_run-after (suc left) n last amount s d first le pos enough =
    let present = first.within n le in
    let here : (is_present d n == 0) ≡ false = ground (arith, present) in
    let restart : Search = record { table = n / 1024; offset = n % 1024; counter = 0 } in
    elim (Bool-cases (n == last)) [
      | inl at_last ↦
          let same : n ≡ last = (==_iff n last).0 at_last in
          rw
            (
              here,
              find_run-counts left (n + 1) amount restart d
                  (λ q above. first.behind q (omega arith)) pos (omega arith),
            )
            (ap (λ (m : ℕ). some (record { table = m / 1024; offset = m % 1024; counter = amount }))
              same)
      | inr before ↦
          rw here (
            find_run-after left (n + 1) last amount restart d first (ground arith) pos
              (omega arith))
    ]

kernel_run_of-first :
    (amount last : ℕ) (d : Paging)
    → HasFirst last d
    → last + amount + 1 < 2 ^ 20
    → kernel_run_of amount d
      ≡ some (record { table = last / 1024; offset = last % 1024; counter = amount + 1 })
unfolding kernel_run_of page_directory_index
kernel_run_of-first amount last d first room =
    let wide : add32 amount 1 ≡ amount + 1 = omega arith in
    let start : Search = record { table = 0; offset = 0; counter = 0 } in
    find_run-after all_pages 0 last (add32 amount 1) start d first (omega arith)
      (omega (arith, wide)) (omega (arith, wide))
    ∙ ap (λ (c : ℕ). some (record { table = last / 1024; offset = last % 1024; counter = c })) wide

-- A kernel allocation gives out the pages behind the last present one.
pub kernel_allocate-first :
    (amount last : ℕ) (d : Paging)
    → HasFirst last d
    → last + amount + 1 < 2 ^ 20
    → (d' : Paging) × (kernel_allocate_virtual_pages amount d ≡ some ((last + 1) * page_size, d'))
      × HasFirst (last + amount) d'
kernel_allocate-first amount last d first room =
    let d' = mark_run (amount + 1) (last / 1024) (last % 1024) d in
    let at : u32 ((last / 1024 * 1024 + last % 1024) * page_size + page_size)
        ≡ (last + 1) * page_size =
      omega arith in
    let marked =
      λ (q : ℕ). mark_run_lem (amount + 1) (last / 1024) (last % 1024) q d (omega arith) in
    (
      d',
      result-some amount d (kernel_run_of-first amount last d first room)
          ∙ ap (λ (a : ℕ). some (a, d')) at,
      record {
        within = λ q le. marked q ∙ ground (arith, first.within q, le);
        behind = λ q lt. marked q ∙ ground (arith, first.behind q, lt);
      },
    )

-- An entry that is set present stays so when its frame is set.
framed_present :
    (p addr : ℕ)
    → bit_and (set_page_frame (set_flags p (bit_or page_present page_writable)) addr) page_present
      ≡ 1
unfolding set_page_frame set_flags bit
framed_present p addr =
    let flagged = bit_or p 3 in
    let kept = bit_and flagged (not32 page_frame) in
    ground (
      arith,
      bit_and-pow 0 (bit_or kept addr),
      bit-bit_or 0 kept addr,
      bit-bit_and 0 flagged (not32 page_frame),
      bit-bit_or 0 p 3,
      bit-le-one 0 p,
      bit-le-one 0 addr,
    )

-- Mapping a page whose number, in the one table that is ever reached, is not behind the last page changes
-- no presence.
map_page-HasFirst :
    (frame : ℕ → ℕ) (phys virt last : ℕ) (d : Paging)
    → HasFirst last d
    → virt % page_size ≡ 0
    → virt / page_size % 1024 ≤ last
    → HasFirst last (map_page frame phys virt d)
unfolding map_page
map_page-HasFirst frame phys virt last d first aligned within =
    let table = page_directory_index-aligned virt aligned in
    let entry = page_table_index-mod virt in
    rw (table, entry)
      (record {
        within = λ q le. elim (Bool-cases (q == virt / 4096 % 1024)) [
          | inl here ↦
              let hit : (q / 1024 == 0 && q % 1024 == virt / 4096 % 1024) ≡ true = ground arith in
              rw hit (framed_present (d.tables 0 (virt / 4096 % 1024)) phys)
          | inr other ↦
              let miss : (q / 1024 == 0 && q % 1024 == virt / 4096 % 1024) ≡ false = ground arith in
              rw miss (first.within q le)
        ];
        behind = λ q lt.
            let miss : (q / 1024 == 0 && q % 1024 == virt / 4096 % 1024) ≡ false = ground arith in
            rw miss (first.behind q lt);
      })

map_pages-HasFirst :
    (frame : ℕ → ℕ) (amount phys page last : ℕ) (d : Paging)
    → HasFirst last d
    → page + amount ≤ last + 1
    → last + 1 < 2 ^ 20
    → HasFirst last (map_pages frame phys (page * page_size) amount d)
unfolding map_pages
map_pages-HasFirst frame zero phys page last d first within small = first
map_pages-HasFirst frame (suc amount) phys page last d first within small =
    let d' = map_page frame phys (page * page_size) d in
    let first' =
      map_page-HasFirst frame phys (page * page_size) last d first (omega arith) (omega arith) in
    let on : add32 (page * page_size) page_size ≡ (page + 1) * page_size = omega arith in
    rw on (
      map_pages-HasFirst frame amount (add32 phys page_size) (page + 1) last d' first' (omega arith)
        small)

-- `MapVirtualPages` of pages that the kernel was given.
pub map_virtual_pages-HasFirst :
    (phys page amount last : ℕ) (d : Paging)
    → HasFirst last d
    → page + amount ≤ last + 1
    → last + 1 < 2 ^ 20
    → HasFirst last ((map_virtual_pages phys (page * page_size) amount d).1)
unfolding map_virtual_pages
map_virtual_pages-HasFirst phys page amount last d first within small =
    elim (Bool-cases (amount == 0)) [
      | inl nothing ↦ rw nothing first
      | inr some_pages ↦
          rw some_pages
            (map_pages-HasFirst (table_phys d) amount phys page last d first within small)
    ]

identity_page-HasFirst :
    (frame : ℕ) (d : Paging)
    → ((q : ℕ) → 0 < q → is_present d q ≡ 0)
    → HasFirst 0 (identity_page frame d)
unfolding identity_page page_directory_index page_table_index
identity_page-HasFirst frame d others = record {
  within = λ q le.
      let hit : (q / 1024 == 0 && q % 1024 == 0) ≡ true = ground arith in
      rw hit (framed_present 0 frame);
  behind = λ q lt.
      let miss : (q / 1024 == 0 && q % 1024 == 0) ≡ false = ground arith in rw miss (others q lt);
}

-- The loop of `InitializeVirtualMemory` sets page 0 again and again.
identity_map-HasFirst :
    (left frame : ℕ) (d : Paging)
    → ((q : ℕ) → 0 < q → is_present d q ≡ 0)
    → 0 < left
    → HasFirst 0 (identity_map left frame d)
unfolding identity_map
identity_map-HasFirst zero frame d others pos = absurd (omega arith)
identity_map-HasFirst (suc zero) frame d others pos = identity_page-HasFirst frame d others
identity_map-HasFirst (suc (suc left)) frame d others pos =
    identity_map-HasFirst (suc left) (u32 (frame + page_size)) (identity_page frame d)
      ((identity_page-HasFirst frame d others).behind) (omega arith)

pub initialize_virtual_memory-HasFirst :
    (tables_at : ℕ) → HasFirst 0 (initialize_virtual_memory tables_at)
unfolding initialize_virtual_memory
initialize_virtual_memory-HasFirst tables_at =
    identity_map-HasFirst 4096 0
      (record { directory = λ i. page_writable; tables = λ i j. 0; tables_at = tables_at })
      (λ q lt. refl) (omega arith)
