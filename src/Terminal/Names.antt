-- ===== src/Terminal/Names.antt =====
-- The names of the terminals: what `GetNextPTY` stores, over and over.
use literate_os.Common.{
  ℕ, zero, suc, ◌+◌, ◌-◌, ◌%◌, ◌<◌, ◌≤◌, ◌≡◌, ◌↔◌, refl, sym, ap, ◌∙◌, ltb, if◌then◌else◌, arith,
}
use literate_os.Terminal.{next_name}

-- The character of the `n`-th terminal; the first is '0'.
pub name_after : ℕ → ℕ
name_after zero = 48
name_after (suc n) = next_name (name_after n)

-- Digits, then all characters from 'a' on to the last, then those from 0 to '/'.
abbrev pub nth_name : ℕ → ℕ
nth_name r = if ltb r 10 then 48 + r else if ltb r 169 then 87 + r else r - 169

next_name-nth_name : (r : ℕ) → r < 217 → next_name (nth_name r) ≡ nth_name ((r + 1) % 217)
unfolding next_name
next_name-nth_name r small = ground arith

name_after-nth_name : (n : ℕ) → name_after n ≡ nth_name (n % 217)
unfolding name_after
name_after-nth_name zero = refl
name_after-nth_name (suc n) =
    ap next_name (name_after-nth_name n)
    ∙ next_name-nth_name (n % 217) (omega arith)
    ∙ ap nth_name again
  where
    again : (n % 217 + 1) % 217 ≡ suc n % 217
    again = omega arith

nth_name-inj : (q r : ℕ) → q < 217 → r < 217 → nth_name q ≡ nth_name r → q ≡ r
nth_name-inj q r small small' e = ground arith

-- Two terminals have the same character in their names exactly if their numbers agree modulo 217, and no
-- name has a character from ':' to '`', so none has a capital letter.
pub name_after-eq :
    (m n : ℕ)
    → ((name_after m ≡ name_after n) ↔ (m % 217 ≡ n % 217))
      × ((58 ≤ name_after n) → 97 ≤ name_after n)
name_after-eq m n =
    let a = name_after-nth_name m in
    let b = name_after-nth_name n in
    (
      (
        λ e. nth_name-inj (m % 217) (n % 217) (omega arith) (omega arith) (sym a ∙ e ∙ b),
        λ e. a ∙ ap nth_name e ∙ sym b,
      ),
      λ high. ground (arith, b),
    )
