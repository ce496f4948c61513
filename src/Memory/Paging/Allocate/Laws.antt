-- ===== src/Memory/Paging/Allocate/Laws.antt =====
-- The pages that `KernelAllocateVirtualPages` gives out.
use literate_os.Common.{
  Bool, ℕ, zero, suc, ◌+◌, ◌*◌, ◌/◌, ◌%◌, ◌^◌, ◌≤◌, ◌<◌, bit_and, bit_or, ◌≡◌, refl, sym, ap, ◌∙◌,
  none, some, ◌==◌, leb, if◌then◌else◌, arith, ◌&&◌, ltb, Bool-cases, inl, inr, true, false,
  Option-cases,
}
use literate_os.Common.Bits.{u32, bit, bit-bit_or, bit_and-pow, bit-le-one}
use literate_os.Memory.Paging.{Paging, page_size, page_present, page_writable, set_flags}
use literate_os.Memory.Paging.Allocate.FreeRuns.{start_of, kernel_run_of_lem}
use literate_os.Memory.Paging.Allocate.{
  mark_page, Search, is_present, mark_run, kernel_run_of, kernel_allocate_virtual_pages, run_of,
  allocate_virtual_pages, pages_per_table,
}

-- Which pages are present after a run was marked.
set_present : (p : ℕ) → bit_and (set_flags p (bit_or page_writable page_present)) page_present ≡ 1
unfolding set_flags bit
set_present p = omega (arith, bit_and-pow 0 (bit_or p 3), bit-bit_or 0 p 3, bit-le-one 0 p)

mark_page-is_present :
    (table offset q : ℕ) (d : Paging)
    → offset < 1024
    → is_present (mark_page table offset d) q
      ≡ (if q == table * 1024 + offset then 1 else is_present d q)
mark_page-is_present table offset q d small = elim (Bool-cases (q == table * 1024 + offset)) [
  | inl here ↦
      let e : (q / 1024 == table && q % 1024 == offset) ≡ true = ground arith in
      rw (e, here) (set_present (d.tables table offset))
  | inr other ↦
      let e : (q / 1024 == table && q % 1024 == offset) ≡ false = ground arith in rw (e, other) refl
]

-- Which page numbers a run has.
abbrev in_run : (first count q : ℕ) → Bool
in_run first count q = leb first q && ltb q (first + count)

run-suc :
    (first count q v : ℕ)
    → (if in_run (first + 1) count q then 1 else (if q == first then 1 else v))
      ≡ (if in_run first (suc count) q then 1 else v)
run-suc first count q v = ground arith

pub mark_run_lem :
    (counter table offset q : ℕ) (d : Paging)
    → offset < 1024
    → is_present (mark_run counter table offset d) q
      ≡ (if in_run (table * 1024 + offset) counter q then 1 else is_present d q)
unfolding mark_run
mark_run_lem zero table offset q d small =
    let none_in : in_run (table * 1024 + offset) 0 q ≡ false = ground arith in rw none_in refl
mark_run_lem (suc counter) table offset q d small =
    let first = table * 1024 + offset in
    let d' = mark_page table offset d in
    let all = run-suc first counter q (is_present d q) in
    elim (Bool-cases (leb 1024 (offset + 1))) [
      | inl last ↦
          let on : (table + 1) * 1024 + 0 ≡ first + 1 = ground arith in
          rw last (
            mark_run_lem counter (table + 1) 0 q d' (omega arith)
            ∙ rw (on, mark_page-is_present table offset q d small) all)
      | inr more ↦
          let on : table * 1024 + (offset + 1) ≡ first + 1 = ground arith in
          rw more (
            mark_run_lem counter table (offset + 1) q d' (ground arith)
            ∙ rw (on, mark_page-is_present table offset q d small) all)
    ]

-- What is handed out for a run.
abbrev handed_out : Paging → Search → ℕ × Paging
handed_out d s = (
  u32 ((s.table * pages_per_table + s.offset) * page_size + page_size),
  mark_run s.counter s.table s.offset d,
)

result-none :
    (amount : ℕ) (d : Paging)
    → kernel_run_of amount d ≡ none
    → kernel_allocate_virtual_pages amount d ≡ none
unfolding kernel_allocate_virtual_pages
result-none amount d e = rw (kernel_allocate_virtual_pages, e)

pub result-some :
    (amount : ℕ) (d : Paging) {s : Search}
    → kernel_run_of amount d ≡ some s
    → kernel_allocate_virtual_pages amount d ≡ some (handed_out d s)
unfolding kernel_allocate_virtual_pages
result-some amount d e = rw (kernel_allocate_virtual_pages, e)

pair_of : {A B : Type 0} {p q : A × B} → some p ≡ some q → (p.0 ≡ q.0) × (p.1 ≡ q.1)
pair_of {p = p} {q = q} e = let same : p ≡ q = cc e in (ap (λ t. t.0) same, ap (λ t. t.1) same)

-- The pages that `KernelAllocateVirtualPages` gives out: of the `amount` pages from the returned address
-- on each was free before, and is present afterwards; a page that was present stays so.
pub kernel_allocate_virtual_pages_lem :
    (amount addr : ℕ) (d : Paging) {d' : Paging}
    → amount < 2 ^ 20
    → kernel_allocate_virtual_pages amount d ≡ some (addr, d')
    → (first : ℕ) × (addr ≡ u32 (first * page_size))
      × ((q : ℕ) → first ≤ q → q < first + amount → is_present d q ≡ 0)
      × ((q : ℕ) → first ≤ q → q < first + amount → is_present d' q ≡ 1)
      × ((q : ℕ) → is_present d q ≡ 1 → is_present d' q ≡ 1)
kernel_allocate_virtual_pages_lem amount addr d {d'} small e =
    elim (Option-cases (kernel_run_of amount d)) [
      | inl nowhere ↦ absurd (cc (sym (result-none amount d nowhere) ∙ e))
      | inr (s, run) ↦
          let (m, found, all) = kernel_run_of_lem amount d small run in
          let (at, after) = pair_of (sym (result-some amount d run) ∙ e) in
          let marked : (q : ℕ)
              → is_present d' q ≡ (if in_run (start_of s) s.counter q then 1 else is_present d q) =
            λ q.
              ap (λ (t : Paging). is_present t q) (sym after)
              ∙ mark_run_lem s.counter s.table s.offset q d found.offset_small in
          (
            start_of s + 1,
            sym at ∙ omega arith,
            λ q above below.
                found.free q (omega (arith, found.gap_small, above))
                  (omega (arith, found.reached, all, below)),
            λ q above below. marked q ∙ ground (arith, above, below, all),
            λ q was. marked q ∙ ground (arith, was),
          )
    ]

allocated-some :
    (amount : ℕ) (d : Paging) {s : Search}
    → run_of amount d ≡ some s
    → allocate_virtual_pages amount d
      ≡ some (
        u32 ((s.table * pages_per_table + s.offset) * page_size),
        mark_run s.counter s.table s.offset d,
      )
unfolding allocate_virtual_pages
allocated-some amount d e = rw (allocate_virtual_pages, e)

allocated-none :
    (amount : ℕ) (d : Paging) → run_of amount d ≡ none → allocate_virtual_pages amount d ≡ none
unfolding allocate_virtual_pages
allocated-none amount d e = rw (allocate_virtual_pages, e)

pub allocate_virtual_pages-aligned :
    (amount virt : ℕ) (d : Paging) {d' : Paging}
    → allocate_virtual_pages amount d ≡ some (virt, d')
    → virt % 4096 ≡ 0
allocate_virtual_pages-aligned amount virt d e = elim (Option-cases (run_of amount d)) [
  | inl nowhere ↦ absurd (cc (sym (allocated-none amount d nowhere) ∙ e))
  | inr (s, run) ↦
      let (at, after) = pair_of (sym (allocated-some amount d run) ∙ e) in omega (arith, at)
]

pub kernel_allocate_virtual_pages-aligned :
    (amount virt : ℕ) (d : Paging) {d' : Paging}
    → kernel_allocate_virtual_pages amount d ≡ some (virt, d')
    → virt % 4096 ≡ 0
kernel_allocate_virtual_pages-aligned amount virt d e =
    elim (Option-cases (kernel_run_of amount d)) [
      | inl nowhere ↦ absurd (cc (sym (result-none amount d nowhere) ∙ e))
      | inr (s, run) ↦
          let (at, after) = pair_of (sym (result-some amount d run) ∙ e) in omega (arith, at)
    ]
