-- ===== src/Layout/Fields.antt =====
-- What a store to a member changes.
use literate_os.Common.{
  ℕ, zero, suc, ◌+◌, ◌-◌, ◌*◌, ◌/◌, ◌%◌, ◌^◌, ◌<◌, ◌≤◌, ◌≡◌, ◌≢◌, refl, sym, subst, ap, ◌∙◌, some,
  [], ◌∷◌, leb, ltb, true, false, get_elem?, arith, ◌⊎◌, inl, inr, Bool-cases, ltb→lt,
}
use literate_os.Common.Bits.{bit, bit-le-one, bit_ext}
use literate_os.Common.Bits.Fields.{bit-mod-pow}
use native.Mathlib.Nat.{pow-suc, one-le-pow}
use literate_os.Layout.{
  Member, field, bits, Layout, Span, span, spans, end_of, Memory, load_bits, store_bits,
  load_member, store_member,
}

span-after : (at : ℕ) (m : Member) → at ≤ (span at m).start
span-after at (field name size count) = omega arith
span-after at (bits name width) = omega arith

end_of-ge : (at : ℕ) (l : Layout) → at ≤ end_of at l
end_of-ge at [] = omega arith
end_of-ge at (m ∷ ms) =
    omega (arith, span-after at m, end_of-ge ((span at m).start + (span at m).width) ms)

-- Every member lies behind the start of the structure and before its end.
pub spans_bounds :
    (at : ℕ) (l : Layout) (p : ℕ) (s : Span)
    → get_elem? (spans at l) p ≡ some s
    → (at ≤ s.start) × (s.start + s.width ≤ end_of at l)
spans_bounds at [] p s e = absurd (cc e)
spans_bounds at (m ∷ ms) zero s e =
    let same : span at m ≡ s = cc in
    let at_end = end_of-ge ((span at m).start + (span at m).width) ms in
    subst (λ s. (at ≤ s.start) × (s.start + s.width ≤ end_of at (m ∷ ms))) same
      (span-after at m, at_end)
spans_bounds at (m ∷ ms) (suc p) s e =
    let (above, below) = spans_bounds ((span at m).start + (span at m).width) ms p s e in
    (omega (arith, span-after at m), below)

-- Of two members the later one starts behind the end of the earlier one.
pub spans-apart :
    (at : ℕ) (l : Layout) (p q : ℕ) (s t : Span)
    → get_elem? (spans at l) p ≡ some s
    → get_elem? (spans at l) q ≡ some t
    → p < q
    → s.start + s.width ≤ t.start
spans-apart at [] p q s t e e' lt = absurd (cc e)
spans-apart at (m ∷ ms) zero zero s t e e' lt = absurd (omega arith)
spans-apart at (m ∷ ms) zero (suc q) s t e e' lt =
    let (above, below) = spans_bounds ((span at m).start + (span at m).width) ms q t e' in
    let same : span at m ≡ s = cc in subst (λ s. s.start + s.width ≤ t.start) same above
spans-apart at (m ∷ ms) (suc p) zero s t e e' lt = absurd (omega arith)
spans-apart at (m ∷ ms) (suc p) (suc q) s t e e' lt =
    spans-apart ((span at m).start + (span at m).width) ms p q s t e e' (omega arith)

load_bits-lt : (width start : ℕ) (mem : Memory) → load_bits width start mem < 2 ^ width
unfolding load_bits
load_bits-lt zero start mem = omega arith
load_bits-lt (suc width) start mem =
    omega (arith, pow-suc 2 width, load_bits-lt width (start + 1) mem)

bit-load_bits :
    (k width start : ℕ) (mem : Memory)
    → k < width
    → bit k (load_bits width start mem) ≡ mem (start + k) % 2
unfolding load_bits bit
bit-load_bits k zero start mem lt = absurd (omega arith)
bit-load_bits zero (suc width) start mem lt =
    let e : start ≡ start + 0 = omega arith in
    let low : (mem start % 2 + 2 * load_bits width (start + 1) mem) % 2 ≡ mem start % 2 =
      omega arith in
    low ∙ ap (λ i. mem i % 2) e
bit-load_bits (suc k) (suc width) start mem lt =
    let half : (mem start % 2 + 2 * load_bits width (start + 1) mem) / 2
        ≡ load_bits width (start + 1) mem =
      omega arith in
    let e : start + suc k ≡ start + 1 + k = omega arith in
    ap (bit k) half
    ∙ bit-load_bits k width (start + 1) mem (omega arith)
    ∙ ap (λ i. mem i % 2) (sym e)

store_bits-inside :
    (width start value : ℕ) (mem : Memory) (k : ℕ)
    → k < width
    → store_bits width start value mem (start + k) ≡ bit k value
unfolding store_bits
store_bits-inside width start value mem k lt =
    let from : leb start (start + k) ≡ true = ground arith in
    let to : ltb (start + k) (start + width) ≡ true = ground arith in
    let at : start + k - start ≡ k = omega arith in rw (from, to, at)

store_bits-outside :
    (width start value : ℕ) (mem : Memory) (a : ℕ)
    → (a < start) ⊎ (start + width ≤ a)
    → store_bits width start value mem a ≡ mem a
unfolding store_bits
store_bits-outside width start value mem a (inl below) =
    let from : leb start a ≡ false = ground arith in rw from
store_bits-outside width start value mem a (inr above) =
    let to : ltb a (start + width) ≡ false = ground arith in
    let from : leb start a ≡ true = ground arith in rw (from, to)

-- What is stored is loaded, as far as it fits.
load_bits-store_bits :
    (width start value : ℕ) (mem : Memory)
    → load_bits width start (store_bits width start value mem) ≡ value % 2 ^ width
load_bits-store_bits width start value mem =
    bit_ext width (load_bits width start (store_bits width start value mem)) (value % 2 ^ width)
      (load_bits-lt width start (store_bits width start value mem))
      (omega (arith, one-le-pow width 2))
      λ k lt.
        let small = bit-le-one k value in
        let cell : store_bits width start value mem (start + k) % 2 ≡ bit k value =
          omega (arith, store_bits-inside width start value mem k lt) in
        bit-load_bits k width start (store_bits width start value mem) lt
        ∙ cell
        ∙ sym (bit-mod-pow width k value lt)

-- A load from elsewhere does not see the store.
load_bits-apart :
    (width start width' start' value : ℕ) (mem : Memory)
    → (start + width ≤ start') ⊎ (start' + width' ≤ start)
    → load_bits width start (store_bits width' start' value mem) ≡ load_bits width start mem
unfolding load_bits
load_bits-apart zero start width' start' value mem apart = refl
load_bits-apart (suc width) start width' start' value mem (inl before) = omega (
  arith,
  store_bits-outside width' start' value mem start (inl (omega arith)),
  load_bits-apart width (start + 1) width' start' value mem (inl (omega arith)),
)
load_bits-apart (suc width) start width' start' value mem (inr behind) = omega (
  arith,
  store_bits-outside width' start' value mem start (inr (omega arith)),
  load_bits-apart width (start + 1) width' start' value mem (inr (omega arith)),
)

-- A member that was stored holds the value, as far as it has bits for it.
pub load_member-store_member :
    (base : ℕ) (s : Span) (value : ℕ) (mem : Memory)
    → load_member base s (store_member base s value mem) ≡ value % 2 ^ s.width
unfolding load_member store_member
load_member-store_member base s value mem =
    load_bits-store_bits s.width (8 * base + s.start) value mem

-- A member that ends before the other starts, in the same or in another structure, is not changed.
pub load_member-apart :
    (base base' : ℕ) (s t : Span) (value : ℕ) (mem : Memory)
    → (8 * base + s.start + s.width ≤ 8 * base' + t.start)
      ⊎ (8 * base' + t.start + t.width ≤ 8 * base + s.start)
    → load_member base s (store_member base' t value mem) ≡ load_member base s mem
unfolding load_member store_member
load_member-apart base base' s t value mem apart =
    load_bits-apart s.width (8 * base + s.start) t.width (8 * base' + t.start) value mem apart

-- A store to one member of a structure leaves the others as they are.
pub load_member-other :
    (base : ℕ) (l : Layout) (p q : ℕ) (s t : Span) (value : ℕ) (mem : Memory)
    → get_elem? (spans 0 l) p ≡ some s
    → get_elem? (spans 0 l) q ≡ some t
    → p ≢ q
    → load_member base s (store_member base t value mem) ≡ load_member base s mem
load_member-other base l p q s t value mem e e' ne = elim (Bool-cases (ltb p q)) [
  | inl lt ↦
      let before = spans-apart 0 l p q s t e e' (ltb→lt p q lt) in
      load_member-apart base base s t value mem (inl (omega arith))
  | inr ge ↦
      let behind = spans-apart 0 l q p t s e' e (ground arith) in
      load_member-apart base base s t value mem (inr (omega arith))
]
