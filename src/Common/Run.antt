-- ===== src/Common/Run.antt =====
-- Runs of kernel code that can dereference a bad pointer, or loop for ever.
use mathlib.Core.Path.{◌≡◌, refl}
use mathlib.Core.Bool.{true, false}
use mathlib.Core.Logic.{◌≢◌}
use native.Mathlib.Omega.{arith}
use literate_os.Common.Tests.{◌==◌, if◌then◌else◌}
use Prim.Native.Nat.{ℕ}
use mathlib.Core.Option.{Option, none, some}

-- `fault` is undefined behaviour, such as a read through a null or a stale pointer; `out_of_fuel`
-- says only that the loop needs more rounds than it was given.
pub data Run {ℓ} (A : Type ℓ) : Type ℓ where
  ok : A → Run A
  fault : Run A
  out_of_fuel : Run A

infixl 5 ◌>>=◌
abbrev pub ◌>>=◌ {ℓ κ} : {A : Type ℓ} {B : Type κ} → Run A → (A → Run B) → Run B
ok a >>= k = k a
fault >>= k = fault
out_of_fuel >>= k = out_of_fuel

abbrev pub or_fault {ℓ} : {A : Type ℓ} → Option A → Run A
or_fault none = fault
or_fault (some a) = ok a

pub ok-inj {ℓ} : {A : Type ℓ} {a b : A} → ok a ≡ ok b → a ≡ b
ok-inj e = cc

pub >>=-fault {ℓ κ} :
    {A : Type ℓ} {B : Type κ} {m : Run A} (f : A → Run B) → m ≡ fault → (m >>= f) ≡ fault
>>=-fault f e = rw e

pub >>=-eq {ℓ κ} :
    {A : Type ℓ} {B : Type κ} {m : Run A} (f : A → Run B) {a : A} {r : Run B}
    → m ≡ ok a
    → f a ≡ r
    → (m >>= f) ≡ r
>>=-eq f e run = rw e run

-- A later step runs on what an earlier one returned.
pub >>=-eq-ok {ℓ κ} :
    {A : Type ℓ} {B : Type κ} {m : Run A} (f : A → Run B) {a : A} {b : B}
    → m ≡ ok a
    → f a ≡ ok b
    → (m >>= f) ≡ ok b
>>=-eq-ok f e run = rw e run

-- A run of two steps that ends was a run of each.
pub >>=-ok {ℓ κ} :
    {A : Type ℓ} {B : Type κ} {m : Run A} {f : A → Run B} {b : B}
    → (m >>= f) ≡ ok b
    → (a : A) × (m ≡ ok a) × (f a ≡ ok b)
>>=-ok {m = ok a} e = (a, refl, e)
>>=-ok {m = fault} e = absurd (cc e)
>>=-ok {m = out_of_fuel} e = absurd (cc e)

pub >>=-assoc {ℓ κ μ} :
    {A : Type ℓ} {B : Type κ} {C : Type μ} (m : Run A) (f : A → Run B) (g : B → Run C)
    → ((m >>= f) >>= g) ≡ (m >>= λ a. f a >>= g)
>>=-assoc (ok a) f g = refl
>>=-assoc fault f g = refl
>>=-assoc out_of_fuel f g = refl

-- Memory as a partial function from addresses.
abbrev pub write {ℓ} : {A : Type ℓ} → (ℕ → Option A) → ℕ → Option A → ℕ → Option A
write h p c a = if a == p then c else h a

module _ {ℓ} {A : Type ℓ} (h : ℕ → Option A) (p : ℕ) where
  pub write_self : (c : Option A) → write h p c p ≡ c
  write_self c = let same : (p == p) ≡ true = ground arith in rw same

  pub write-ne : (c : Option A) (a : ℕ) → a ≢ p → write h p c a ≡ h a
  write-ne c a ne = let other : (a == p) ≡ false = ground arith in rw other
