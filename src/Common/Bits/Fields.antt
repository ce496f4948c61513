-- ===== src/Common/Bits/Fields.antt =====
-- Fields of a word: `q * 2 ^ k + r` has `q` in its bits from `k` on, and `r` below them.
use mathlib.Core.Logic.{inl, inr}
use literate_os.Common.Tests.{Bool-cases, ltb}
use Prim.Native.Nat.{ℕ, zero, suc, ◌+◌, ◌-◌, ◌*◌, ◌/◌, ◌%◌, ◌^◌, ◌≤◌, ◌<◌, bit_and, bit_or}
use mathlib.Core.Path.{◌≡◌, sym, ap, ◌∙◌}
use native.Mathlib.Nat.{pow-suc, one-le-pow}
use native.Mathlib.Omega.{arith}
use literate_os.Common.Bits.{
  bit, bit-le-one, bit-zero, bit-bit_and, bit-bit_or, bit-complement, bits_ext,
}

doubled : (k q r : ℕ) → (q * 2 ^ suc k + r) / 2 ≡ q * 2 ^ k + r / 2
doubled k q r = omega (arith, ap (λ (t : ℕ). q * t) (pow-suc 2 k))

even : (k q r : ℕ) → (q * 2 ^ suc k + r) % 2 ≡ r % 2
even k q r = omega (arith, ap (λ (t : ℕ). q * t) (pow-suc 2 k))

pub bit-low : (k j q r : ℕ) → j < k → bit j (q * 2 ^ k + r) ≡ bit j r
unfolding bit
bit-low zero j q r h = absurd (omega arith)
bit-low (suc k) zero q r h = even k q r
bit-low (suc k) (suc j) q r h = ap (bit j) (doubled k q r) ∙ bit-low k j q (r / 2) (omega arith)

pub bit-high : (k j q r : ℕ) → r < 2 ^ k → bit (k + j) (q * 2 ^ k + r) ≡ bit j q
unfolding bit
bit-high zero j q r fits =
    let whole : q * 2 ^ 0 + r ≡ q = omega arith in
    let at : 0 + j ≡ j = omega arith in ap (λ (i : ℕ). bit i (q * 2 ^ 0 + r)) at ∙ ap (bit j) whole
bit-high (suc k) j q r fits =
    let at : suc k + j ≡ suc (k + j) = omega arith in
    ap (λ (i : ℕ). bit i (q * 2 ^ suc k + r)) at
    ∙ ap (bit (k + j)) (doubled k q r)
    ∙ bit-high k j q (r / 2) (omega (arith, pow-suc 2 k))

pub bit-above : (k j q r : ℕ) → r < 2 ^ k → k ≤ j → bit j (q * 2 ^ k + r) ≡ bit (j - k) q
bit-above k j q r fits le =
    let at : j ≡ k + (j - k) = omega arith in
    ap (λ (i : ℕ). bit i (q * 2 ^ k + r)) at ∙ bit-high k (j - k) q r fits

-- A word below `2 ^ k` has no bit from `k` on.
pub bit_of_lt : (k j x : ℕ) → x < 2 ^ k → k ≤ j → bit j x ≡ 0
bit_of_lt k j x fits le =
    let whole : x ≡ 0 * 2 ^ k + x = omega arith in
    ap (bit j) whole ∙ bit-above k j 0 x fits le ∙ bit-zero (j - k)

-- A remainder by a power of two keeps the bits below it.
pub bit-mod-pow : (k j x : ℕ) → j < k → bit j (x % 2 ^ k) ≡ bit j x
bit-mod-pow k j x h =
    let parts : x ≡ x / 2 ^ k * 2 ^ k + x % 2 ^ k = omega (arith, one-le-pow k 2) in
    sym (bit-low k j (x / 2 ^ k) (x % 2 ^ k) h) ∙ ap (bit j) (sym parts)

-- A mask of ones takes the remainder.
pub bit_and_mask : (k a : ℕ) → bit_and a (2 ^ k - 1) ≡ a % 2 ^ k
bit_and_mask k a = bits_ext _ _ same
  where
    same : (j : ℕ) → bit j (bit_and a (2 ^ k - 1)) ≡ bit j (a % 2 ^ k)
    same j = ground (
      arith,
      bit-bit_and j a (2 ^ k - 1),
      bit-complement k j 0,
      bit-zero j,
      bit-mod-pow k j a,
      bit-le-one j a,
      one-le-pow k 2,
      bit_of_lt k j (2 ^ k - 1),
      bit_of_lt k j (a % 2 ^ k),
    )

-- Disjoint fields are joined by a sum.
pub bit_or_fields : (k q r : ℕ) → r < 2 ^ k → bit_or (q * 2 ^ k) r ≡ q * 2 ^ k + r
bit_or_fields k q r fits = bits_ext _ _ same
  where
    shifted : q * 2 ^ k ≡ q * 2 ^ k + 0
    shifted = omega arith

    same : (j : ℕ) → bit j (bit_or (q * 2 ^ k) r) ≡ bit j (q * 2 ^ k + r)
    same j = elim (Bool-cases (ltb j k)) [
      | inl below ↦
          let h : j < k = ground arith in
          omega (
            arith,
            bit-bit_or j (q * 2 ^ k) r,
            bit-low k j q r h,
            ap (bit j) shifted ∙ bit-low k j q 0 h,
            bit-zero j,
          )
      | inr above ↦
          let h : k ≤ j = ground arith in
          omega (
            arith,
            bit-bit_or j (q * 2 ^ k) r,
            bit-above k j q r fits h,
            ap (bit j) shifted ∙ bit-above k j q 0 (omega arith) h,
            bit_of_lt k j r fits h,
          )
    ]
