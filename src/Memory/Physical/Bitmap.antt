-- ===== src/Memory/Physical/Bitmap.antt =====
-- One bit of the bitmap, and what the writes and the search do to it.
use native.Mathlib.Nat.{pow-le-pow_right}
use literate_os.Common.{
  ℕ, ◌/◌, ◌%◌, ◌^◌, ◌≤◌, ◌<◌, bit_and, bit_or, ◌≡◌, ap, ◌≢◌, inl, inr, some, List, ◌==◌,
  if◌then◌else◌, Option-cases, arith, get_elem?, get_or, set, length, length-set, get_or-set_self,
  get_or-set_ne, get_elem?-eq-get_or, get_elem?-lt, Bool-cases,
}
use literate_os.Common.Bits.{
  bit, bit-bit_and, bit-bit_or, bit-pow, bit-complement, not32, bit-le-one,
}
use literate_os.Memory.Physical.{bit_set, bit_clear}

-- 1 if block `b` is taken.
unfoldable pub block_bit : List ℕ → ℕ → ℕ
block_bit m b = bit (b % 32) (get_or m (b / 32) 0)

abbrev pub Taken : List ℕ → ℕ → Type 0
Taken m b = block_bit m b ≡ 1

abbrev pub Free : List ℕ → ℕ → Type 0
Free m b = block_bit m b ≡ 0

pow_fits : (j : ℕ) → j < 32 → 2 ^ j < 2 ^ 32
pow_fits j h =
    let le : 2 ^ j ≤ 2 ^ 31 = pow-le-pow_right {n = 2} (omega arith) {j = 31} (omega arith) in
    omega (arith, le)

block_bit-set :
    (m : List ℕ) (b c v : ℕ)
    → b / 32 < length m
    → block_bit (set m (b / 32) v) c ≡ (if c / 32 == b / 32 then bit (c % 32) v else block_bit m c)
unfolding block_bit
block_bit-set m b c v h = elim (Bool-cases (c / 32 == b / 32)) [
  | inl same ↦
      let e : c / 32 ≡ b / 32 = ground arith in rw (same, e, get_or-set_self m (b / 32) v 0 h)
  | inr other ↦
      let ne : b / 32 ≢ c / 32 = ground arith in
      rw (other, get_or-set_ne m (b / 32) (c / 32) v 0 ne)
]

-- A write inside the bitmap succeeds, and one outside does not.
pub bit_set-eq :
    (m : List ℕ) (b : ℕ)
    → b / 32 < length m
    → bit_set m b ≡ some (set m (b / 32) (bit_or (get_or m (b / 32) 0) (2 ^ (b % 32))))
unfolding bit_set
bit_set-eq m b h = rw (get_elem?-eq-get_or m (b / 32) 0 h)

pub bit_clear-eq :
    (m : List ℕ) (b : ℕ)
    → b / 32 < length m
    → bit_clear m b ≡ some (set m (b / 32) (bit_and (get_or m (b / 32) 0) (not32 (2 ^ (b % 32)))))
unfolding bit_clear
bit_clear-eq m b h = rw (get_elem?-eq-get_or m (b / 32) 0 h)

pub bit_set-bound : (m : List ℕ) (b : ℕ) {m' : List ℕ} → bit_set m b ≡ some m' → b / 32 < length m
unfolding bit_set
bit_set-bound m b h = elim (Option-cases (get_elem? m (b / 32))) [
  | inl e ↦ absurd (cc (rw e at h))
  | inr (w, e) ↦ get_elem?-lt m (b / 32) e
]

pub bit_clear-bound :
    (m : List ℕ) (b : ℕ) {m' : List ℕ} → bit_clear m b ≡ some m' → b / 32 < length m
unfolding bit_clear
bit_clear-bound m b h = elim (Option-cases (get_elem? m (b / 32))) [
  | inl e ↦ absurd (cc (rw e at h))
  | inr (w, e) ↦ get_elem?-lt m (b / 32) e
]

-- `bit_set` takes block `b` and leaves the others.
pub block_bit-bit_set :
    (m : List ℕ) (b : ℕ) {m' : List ℕ}
    → bit_set m b ≡ some m'
    → (c : ℕ) → block_bit m' c ≡ (if c == b then 1 else block_bit m c)
unfolding block_bit
block_bit-bit_set m b {m'} h c =
    let inside = bit_set-bound m b h in
    let w = get_or m (b / 32) 0 in
    let v = bit_or w (2 ^ (b % 32)) in
    let e : m' ≡ set m (b / 32) v = cc (bit_set-eq m b inside) in
    ground (
      arith,
      ap (λ x. block_bit x c) e,
      block_bit-set m b c v inside,
      bit-bit_or (c % 32) w (2 ^ (b % 32)),
      bit-pow (c % 32) (b % 32),
      bit-le-one (c % 32) w,
    )

-- `bit_clear` frees block `b` and leaves the others.
pub block_bit-bit_clear :
    (m : List ℕ) (b : ℕ) {m' : List ℕ}
    → bit_clear m b ≡ some m'
    → (c : ℕ) → block_bit m' c ≡ (if c == b then 0 else block_bit m c)
unfolding block_bit
block_bit-bit_clear m b {m'} h c =
    let inside = bit_clear-bound m b h in
    let w = get_or m (b / 32) 0 in
    let mask = not32 (2 ^ (b % 32)) in
    let v = bit_and w mask in
    let e : m' ≡ set m (b / 32) v = cc (bit_clear-eq m b inside) in
    ground (
      arith,
      ap (λ x. block_bit x c) e,
      block_bit-set m b c v inside,
      bit-bit_and (c % 32) w mask,
      bit-complement 32 (c % 32) (2 ^ (b % 32)) (omega arith) (pow_fits (b % 32) (omega arith)),
      bit-pow (c % 32) (b % 32),
      bit-le-one (c % 32) w,
    )

-- Inside the bitmap both writes succeed and keep its length.
pub bit_set-succeeds :
    (m : List ℕ) (b : ℕ)
    → b / 32 < length m
    → (m' : List ℕ) × (bit_set m b ≡ some m') × (length m' ≡ length m)
bit_set-succeeds m b h = (_, bit_set-eq m b h, length-set m (b / 32) _)

pub bit_clear-succeeds :
    (m : List ℕ) (b : ℕ)
    → b / 32 < length m
    → (m' : List ℕ) × (bit_clear m b ≡ some m') × (length m' ≡ length m)
bit_clear-succeeds m b h = (_, bit_clear-eq m b h, length-set m (b / 32) _)
