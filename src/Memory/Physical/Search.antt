-- ===== src/Memory/Physical/Search.antt =====
-- What `GetFirstFreeMemoryBlock` finds.
use literate_os.Common.{
  ℕ, zero, suc, ◌+◌, ◌-◌, ◌*◌, ◌/◌, ◌%◌, ◌^◌, ◌≤◌, ◌<◌, bit_and, ◌≡◌, refl, ap, ◌∙◌, subst, ◌⊎◌,
  inl, inr, none, some, List, [], ◌∷◌, ◌==◌, Option-cases, Bool-cases, ltb, arith, length,
}
use literate_os.Common.Bits.{bit, bit-le-one, bit-complement, bit-zero, bit_and-pow}
use native.Mathlib.Nat.{one-le-pow}
use literate_os.Memory.Physical.{full_word, free_bit, first_free_from, get_first_free_memory_block}
use literate_os.Memory.Physical.Bitmap.{block_bit, Taken, Free}

-- The test `!(w & (1 << j))` reads bit `j`.
test_bit : (w j : ℕ) → (bit_and w (2 ^ j) == 0) ≡ (bit j w == 0)
test_bit w j = elim (Bool-cases (bit j w == 0)) [
  | inl clear ↦
      let e : bit j w ≡ 0 = ground arith in
      ground (arith, bit_and-pow j w, ap (λ (t : ℕ). t * 2 ^ j) e)
  | inr taken ↦
      let e : bit j w ≡ 1 = ground (arith, bit-le-one j w) in
      ground (arith, one-le-pow j 2, bit_and-pow j w, ap (λ (t : ℕ). t * 2 ^ j) e)
]

-- A bit that the inner loop finds is clear, and those before it are set.
free_bit_found :
    (w left j : ℕ) {k : ℕ} → free_bit w left j ≡ some k → (j ≤ k) × (k < j + left) × (bit k w ≡ 0)
unfolding free_bit
free_bit_found w zero j h = absurd (cc h)
free_bit_found w (suc left) j {k} h =
    ground (arith, test_bit w j, free_bit_found w left (j + 1) {k = k})

free_bit_before :
    (w left j i : ℕ) {k : ℕ} → free_bit w left j ≡ some k → j ≤ i → i < k → bit i w ≡ 1
unfolding free_bit
free_bit_before w zero j i h p q = absurd (cc h)
free_bit_before w (suc left) j i {k} h p q =
    ground (arith, test_bit w j, bit-le-one i w, free_bit_before w left (j + 1) i {k = k})

free_bit-eq-none : (w left j i : ℕ) → free_bit w left j ≡ none → j ≤ i → i < j + left → bit i w ≡ 1
unfolding free_bit
free_bit-eq-none w zero j i h p q = absurd (omega arith)
free_bit-eq-none w (suc left) j i h p q =
    ground (arith, free_bit-eq-none w left (j + 1) i, test_bit w j, bit-le-one i w)

-- Nothing is free, or `q` is the first free block of `m`.
abbrev pub AllTaken : List ℕ → Type 0
AllTaken m = (p : ℕ) → p / 32 < length m → Taken m p

pub record IsFirstFree (m : List ℕ) (q : ℕ) : Type 0 where
  pub inside : q / 32 < length m
  pub free : Free m q
  pub before : (p : ℕ) → p < q → Taken m p

full_word_bits : (j : ℕ) → j < 32 → bit j full_word ≡ 1
full_word_bits j h = omega (arith, bit-complement 32 j 0 h (omega arith), bit-zero j)

block_bit-here : (w : ℕ) (ws : List ℕ) (p : ℕ) → p < 32 → block_bit (w ∷ ws) p ≡ bit p w
unfolding block_bit
block_bit-here w ws p h =
    let q : p / 32 ≡ 0 = omega arith in let r : p % 32 ≡ p = omega arith in rw (q, r)

block_bit-there :
    (w : ℕ) (ws : List ℕ) (p : ℕ) → 32 ≤ p → block_bit (w ∷ ws) p ≡ block_bit ws (p - 32)
unfolding block_bit
block_bit-there w ws p h =
    let q : p / 32 ≡ suc ((p - 32) / 32) = omega arith in
    let r : p % 32 ≡ (p - 32) % 32 = omega arith in rw (q, r)

-- What the outer loop returns for the words from word `i` on.
abbrev SearchResult : List ℕ → ℕ → ℕ → Type 0
SearchResult ws i r = (AllTaken ws × (r ≡ 0)) ⊎ ((q : ℕ) × (r ≡ i * 32 + q) × IsFirstFree ws q)

-- A word that is taken as a whole does not change the answer.
SearchResult-skip :
    (w : ℕ) (ws : List ℕ) (i r : ℕ)
    → ((j : ℕ) → j < 32 → bit j w ≡ 1)
    → SearchResult ws (i + 1) r
    → SearchResult (w ∷ ws) i r
SearchResult-skip w ws i r full (inl (all, e)) = inl (taken, e)
  where
    taken : AllTaken (w ∷ ws)
    taken p h = elim (Bool-cases (ltb p 32)) [
      | inl low ↦ ground (arith, block_bit-here w ws p, full p)
      | inr high ↦ ground (arith, block_bit-there w ws p, all (p - 32))
    ]
SearchResult-skip w ws i r full (inr (q, e, first)) = inr (
  q + 32,
  omega arith,
  record {
    inside = omega (arith, first.inside);
    free = ground (arith, first.free, block_bit-there w ws (q + 32));
    before = λ p h.
        ground
          (arith, block_bit-here w ws p, full p, block_bit-there w ws p, first.before (p - 32));
  },
)

first_free_from_lem : (ws : List ℕ) (i : ℕ) → SearchResult ws i (first_free_from ws i)
unfolding first_free_from
first_free_from_lem [] i = inl (λ p h. absurd (omega arith), refl)
first_free_from_lem (w ∷ ws) i = elim (Bool-cases (w == full_word)) [
  | inl full ↦
      let e : w ≡ full_word = ground arith in
      rw full (
        SearchResult-skip w ws i (first_free_from ws (i + 1)) (λ j h. rw e (full_word_bits j h))
          (first_free_from_lem ws (i + 1)))
  | inr partial ↦ elim (Option-cases (free_bit w 32 0)) [
    | inl none_free ↦
        rw (partial, none_free)
          (SearchResult-skip w ws i (first_free_from ws (i + 1))
            (λ j h. free_bit-eq-none w 32 0 j none_free (omega arith) (omega arith))
            (first_free_from_lem ws (i + 1)))
    | inr (k, found) ↦
        let f = free_bit_found w 32 0 found in
        rw (partial, found)
          (inr (
            k,
            refl,
            record {
              inside = omega (arith, f);
              free = block_bit-here w ws k (omega (arith, f)) ∙ f.2;
              before = λ p h.
                  block_bit-here w ws p (omega (arith, f))
                  ∙ free_bit_before w 32 0 p found (omega arith) h;
            },
          ))
  ]
]

-- `GetFirstFreeMemoryBlock` returns the first free block of the bitmap, or 0 if there is none.
pub get_first_free_memory_block_lem :
    (m : List ℕ)
    → (AllTaken m × (get_first_free_memory_block m ≡ 0))
      ⊎ IsFirstFree m (get_first_free_memory_block m)
unfolding get_first_free_memory_block
get_first_free_memory_block_lem m = elim (first_free_from_lem m 0) [
  | inl all ↦ inl all
  | inr (q, e, first) ↦ inr (subst (IsFirstFree m) (omega (arith, e)) first)
]
