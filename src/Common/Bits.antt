-- ===== src/Common/Bits.antt =====
-- Bits of machine words: `bit j a` is bit `j` of `a`, and the native operations bit by bit.
pub mod Fields
use Prim.Native.Nat.{
  ℕ, zero, suc, ◌+◌, ◌-◌, ◌*◌, ◌/◌, ◌%◌, ◌^◌, ◌≤◌, ◌<◌, min, max, bit_and, bit_or, digits,
  bit_and-bitwise, bit_or-bitwise,
}
use mathlib.Core.Path.{◌≡◌, refl, sym, ap, ◌∙◌}
use native.Mathlib.Nat.{le_refl, pow-suc, one-le-pow}
use native.Mathlib.Omega.{arith}
use mathlib.Core.Bool.{true, false}
use mathlib.Core.Logic.{◌⊎◌, inl, inr}
use literate_os.Common.Tests.{◌==◌, if◌then◌else◌, ==_iff, Bool-cases}

-- The casts to the fixed widths.
abbrev pub u8 : ℕ → ℕ
u8 n = n % 2 ^ 8

abbrev pub u16 : ℕ → ℕ
u16 n = n % 2 ^ 16

abbrev pub u32 : ℕ → ℕ
u32 n = n % 2 ^ 32

abbrev pub u64 : ℕ → ℕ
u64 n = n % 2 ^ 64

infixl 75 ◌<<<◌ ◌>>>◌
abbrev pub ◌<<<◌ : ℕ → ℕ → ℕ
x <<< k = x * 2 ^ k

abbrev pub ◌>>>◌ : ℕ → ℕ → ℕ
x >>> k = x / 2 ^ k

-- `~x` on uint32_t.
abbrev pub not32 : ℕ → ℕ
not32 x = 2 ^ 32 - 1 - x

-- a + b and a - b on uint32_t.
abbrev pub add32 : ℕ → ℕ → ℕ
add32 a b = u32 (a + b)

abbrev pub sub32 : ℕ → ℕ → ℕ
sub32 a b = u32 (a + 2 ^ 32 - b)

unfoldable pub bit : ℕ → ℕ → ℕ
bit zero a = a % 2
bit (suc j) a = bit j (a / 2)

pub bit-le-one : (j a : ℕ) → bit j a ≤ 1
unfolding bit
bit-le-one zero a = omega arith
bit-le-one (suc j) a = bit-le-one j (a / 2)

pub bit-zero : (j : ℕ) → bit j 0 ≡ 0
unfolding bit
bit-zero zero = refl
bit-zero (suc j) = bit-zero j

-- What a bit of the recursion on digits is, if `f` maps bits to bits and agrees with `z` at 0.
module _ (z : ℕ → ℕ) (f : ℕ → ℕ → ℕ) (at_zero : (j b : ℕ) → bit j (z b) ≡ f 0 (bit j b))
    (small : (x y : ℕ) → x ≤ 1 → y ≤ 1 → f x y ≤ 1) where
  bit-z : (j b : ℕ) → bit j (z b) ≡ f (bit j 0) (bit j b)
  bit-z j b = at_zero j b ∙ ap (λ (x : ℕ). f x (bit j b)) (sym (bit-zero j))

  bit-digits : (j left a b : ℕ) → a ≤ left → bit j (digits z f left a b) ≡ f (bit j a) (bit j b)
  unfolding bit
  bit-digits j zero zero b h = bit-z j b
  bit-digits j zero (suc a) b h = absurd (omega arith)
  bit-digits j (suc left) zero b h = bit-z j b
  bit-digits zero (suc left) (suc a) b h =
      omega (arith, small (suc a % 2) (b % 2) (omega arith) (omega arith))
  bit-digits (suc j) (suc left) (suc a) b h =
      let rest = digits z f left (suc a / 2) (b / 2) in
      let last = f (suc a % 2) (b % 2) in
      let shifted : (rest * 2 + last) / 2 ≡ rest =
        omega (arith, small (suc a % 2) (b % 2) (omega arith) (omega arith)) in
      ap (bit j) shifted ∙ bit-digits j left (suc a / 2) (b / 2) (omega arith)

-- The native operations act on each bit by itself.
pub bit-bit_and : (j a b : ℕ) → bit j (bit_and a b) ≡ min (bit j a) (bit j b)
bit-bit_and j a b =
    ap (bit j) (bit_and-bitwise a b)
    ∙ bit-digits (λ b. 0) min (λ j b. omega (arith, bit-zero j)) (λ x y hx hy. omega arith) j a a b
        (le_refl a)

pub bit-bit_or : (j a b : ℕ) → bit j (bit_or a b) ≡ max (bit j a) (bit j b)
bit-bit_or j a b =
    ap (bit j) (bit_or-bitwise a b)
    ∙ bit-digits (λ b. b) max (λ j b. omega arith) (λ x y hx hy. omega arith) j a a b (le_refl a)

pow_half : (k : ℕ) → 2 ^ suc k / 2 ≡ 2 ^ k
pow_half k = omega (arith, pow-suc 2 k)

pub bit-pow : (j k : ℕ) → bit j (2 ^ k) ≡ (if j == k then 1 else 0)
unfolding bit
bit-pow zero zero = refl
bit-pow zero (suc k) = ground (arith, pow-suc 2 k)
bit-pow (suc j) zero = ground (arith, bit-zero j)
bit-pow (suc j) (suc k) = ap (bit j) (pow_half k) ∙ bit-pow j k ∙ ground arith

-- The complement within `n` bits turns each of them over.
pub bit-complement : (n j x : ℕ) → j < n → x < 2 ^ n → bit j (2 ^ n - 1 - x) ≡ 1 - bit j x
unfolding bit
bit-complement zero j x h hx = absurd (omega arith)
bit-complement (suc n) zero x h hx = omega (arith, pow-suc 2 n, one-le-pow n 2)
bit-complement (suc n) (suc j) x h hx =
    let e : (2 ^ suc n - 1 - x) / 2 ≡ 2 ^ n - 1 - x / 2 = omega (arith, pow-suc 2 n) in
    ap (bit j) e ∙ bit-complement n j (x / 2) (omega arith) (omega (arith, pow-suc 2 n))

-- Fewer bits make a smaller number, and the same bits the same number.
bits-le_fuel : (n a b : ℕ) → a ≤ n → ((j : ℕ) → bit j a ≤ bit j b) → a ≤ b
unfolding bit
bits-le_fuel zero a b h sub = omega arith
bits-le_fuel (suc n) a b h sub =
    let upper = bits-le_fuel n (a / 2) (b / 2) (omega arith) λ j. sub (suc j) in
    omega (arith, upper, sub 0)

pub bits-le : (a b : ℕ) → ((j : ℕ) → bit j a ≤ bit j b) → a ≤ b
bits-le a b = bits-le_fuel a a b (le_refl a)

pub bits_ext : (a b : ℕ) → ((j : ℕ) → bit j a ≡ bit j b) → a ≡ b
bits_ext a b same =
    omega (arith, bits-le a b λ j. omega (arith, same j), bits-le b a λ j. omega (arith, same j))

-- Words with the same bits are the same.
pub bit_ext : (n a b : ℕ) → a < 2 ^ n → b < 2 ^ n → ((j : ℕ) → j < n → bit j a ≡ bit j b) → a ≡ b
unfolding bit
bit_ext zero a b ha hb same = omega arith
bit_ext (suc n) a b ha hb same =
    let upper : a / 2 ≡ b / 2 =
      bit_ext n (a / 2) (b / 2) (omega (arith, pow-suc 2 n)) (omega (arith, pow-suc 2 n))
        λ j h. same (suc j) (omega arith) in
    let lower : a % 2 ≡ b % 2 = same 0 (omega arith) in omega (arith, upper, lower)

pub bit_and-le : (a b : ℕ) → bit_and a b ≤ a
bit_and-le a b = bits-le (bit_and a b) a λ j. omega (arith, bit-bit_and j a b)

pub bit_and-le_right : (a b : ℕ) → bit_and a b ≤ b
bit_and-le_right a b = bits-le (bit_and a b) b λ j. omega (arith, bit-bit_and j a b)

bit-scaled : (i j d : ℕ) → d ≤ 1 → bit i (d * 2 ^ j) ≡ (if i == j then d else 0)
bit-scaled i j zero h = ap (bit i) (omega arith) ∙ bit-zero i ∙ ground arith
bit-scaled i j (suc zero) h = ap (bit i) (omega arith) ∙ bit-pow i j
bit-scaled i j (suc (suc d)) h = absurd (omega arith)

-- A test of one bit reads that bit.
pub bit_and-pow : (j a : ℕ) → bit_and a (2 ^ j) ≡ bit j a * 2 ^ j
bit_and-pow j a = bits_ext _ _ λ i.
    let there = bit-bit_and i a (2 ^ j) ∙ ap (min (bit i a)) (bit-pow i j) in
    there ∙ cases i (Bool-cases (i == j)) ∙ sym (bit-scaled i j (bit j a) (bit-le-one j a))
  where
    cases :
        (i : ℕ)
        → ((i == j) ≡ true) ⊎ ((i == j) ≡ false)
        → min (bit i a) (if i == j then 1 else 0) ≡ (if i == j then bit j a else 0)
    cases i (inl e) =
        rw e (omega (arith, ap (λ (t : ℕ). bit t a) ((==_iff i j).0 e), bit-le-one i a))
    cases i (inr e) = rw e (omega arith)
