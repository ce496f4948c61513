-- ===== src/Memory/Paging/Allocate/FreeRuns.antt =====
-- What the search for a run of free pages finds.
use literate_os.Common.{
  ℕ, zero, suc, ◌+◌, ◌*◌, ◌/◌, ◌%◌, ◌^◌, ◌≤◌, ◌<◌, ◌≡◌, refl, ap, ◌∙◌, some, ◌==◌, leb, arith,
  subst, ==_iff, Bool-cases, inl, inr,
}
use literate_os.Common.Bits.{add32}
use literate_os.Memory.Paging.{Paging, page_directory_index}
use literate_os.Memory.Paging.Allocate.{Search, is_present, find_run, kernel_run_of, all_pages}

abbrev pub start_of : Search → ℕ
start_of s = s.table * 1024 + s.offset

-- The state of the search at page `n`: the counted pages are the ones before `n`, and they are free.
pub record IsSearch (d : Paging) (n : ℕ) (s : Search) : Type 0 where
  pub gap : ℕ
  pub gap_small : gap ≤ 1
  pub reached : start_of s + gap + s.counter ≡ n
  pub free : (q : ℕ) → start_of s + gap ≤ q → q < n → is_present d q ≡ 0
  pub offset_small : s.offset < 1024

IsSearch-counted :
    (d : Paging) (n : ℕ) (s : Search)
    → IsSearch d n s
    → is_present d n ≡ 0
    → IsSearch d (n + 1) (record s { counter = s.counter + 1 })
IsSearch-counted d n s inv free = record {
  gap = inv.gap;
  gap_small = inv.gap_small;
  reached = omega (arith, inv.reached);
  free = λ q above below. elim (Bool-cases (q == n)) [
    | inl here ↦ ap (is_present d) ((==_iff q n).0 here) ∙ free
    | inr other ↦ inv.free q above (ground (arith, below, other))
  ];
  offset_small = inv.offset_small;
}

restarted : ℕ → Search
restarted n = record { table = n / 1024; offset = n % 1024; counter = 0 }

IsSearch-restarted : (d : Paging) (n : ℕ) → IsSearch d (n + 1) (restarted n)
unfolding restarted
IsSearch-restarted d n = record {
  gap = 1;
  gap_small = omega arith;
  reached = omega arith;
  free = λ q above below. absurd (omega (arith, above, below));
  offset_small = omega arith;
}

find_run_lem :
    (left n amount : ℕ) (s : Search) (d : Paging) {r : Search}
    → IsSearch d n s
    → s.counter < amount
    → find_run left n amount s d ≡ some r
    → (m : ℕ) × (m ≤ n + left) × IsSearch d m r × (r.counter ≡ amount)
unfolding find_run restarted
find_run_lem zero n amount s d inv small e = absurd (cc e)
find_run_lem (suc left) n amount s d {r} inv small e =
    let counted : Search = record s { counter = s.counter + 1 } in
    elim (Bool-cases (is_present d n == 0)) [
      | inl free ↦
          let step = IsSearch-counted d n s inv ((==_iff (is_present d n) 0).0 free) in
          elim (Bool-cases (leb amount (s.counter + 1))) [
            | inl full ↦
                let same : counted ≡ r = cc (rw (free, full) at e) in
                subst
                  (λ (r : Search).
                    (m : ℕ) × (m ≤ n + suc left) × IsSearch d m r × (r.counter ≡ amount))
                  same (n + 1, omega arith, step, ground (arith, full, small))
            | inr more ↦
                let (m, le, found, all) =
                  find_run_lem left (n + 1) amount counted d step (ground (arith, more))
                    (rw (free, more) at e) in
                (m, omega (arith, le), found, all)
          ]
      | inr taken ↦
          let (m, le, found, all) =
            find_run_lem left (n + 1) amount (restarted n) d (IsSearch-restarted d n)
              (omega (arith, small)) (rw taken at e) in
          (m, omega (arith, le), found, all)
    ]

pub kernel_run_of_lem :
    (amount : ℕ) (d : Paging) {s : Search}
    → amount < 2 ^ 20
    → kernel_run_of amount d ≡ some s
    → (m : ℕ) × IsSearch d m s × (s.counter ≡ amount + 1)
unfolding kernel_run_of page_directory_index
kernel_run_of_lem amount d small run =
    let start : Search = record { table = 0; offset = 0; counter = 0 } in
    let begin : IsSearch d 0 start = record {
      gap = 0;
      gap_small = omega arith;
      reached = refl;
      free = λ q above below. absurd (omega arith);
      offset_small = omega arith;
    } in
    let wide : add32 amount 1 ≡ amount + 1 = omega arith in
    let (m, le, found, all) =
      find_run_lem all_pages 0 (add32 amount 1) start d begin (omega (arith, wide)) run in
    (m, found, all ∙ wide)
