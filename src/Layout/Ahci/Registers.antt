-- ===== src/Layout/Ahci/Registers.antt =====
-- The registers of the 32 ports are where the comments of Kernel/include/ahci.h say, and apart.
use literate_os.Common.{
  ℕ, zero, suc, ◌+◌, ◌*◌, ◌<◌, ◌≤◌, ◌≡◌, refl, ap, Option, none, some, List, [], ◌∷◌, map,
  get_elem?, arith,
}
use literate_os.Layout.{Span, spans, size_of, offset_of}
use literate_os.Layout.Fields.{spans_bounds}
use literate_os.Layout.Ahci.{hba_port, hba_mem}

-- The comments of `hba_port_t`, in order.
abbrev pub port_offsets : List ℕ
port_offsets =
    0x00 ∷ 0x04 ∷ 0x08 ∷ 0x0C ∷ 0x10 ∷ 0x14 ∷ 0x18 ∷ 0x1C ∷ 0x20 ∷ 0x24 ∷ 0x28 ∷ 0x2C ∷ 0x30 ∷ 0x34
    ∷ 0x38 ∷ 0x3C ∷ 0x40 ∷ 0x44 ∷ 0x70 ∷ []

abbrev or_zero : Option ℕ → ℕ
or_zero none = 0
or_zero (some n) = n

-- &hba -> ports[i]
pub port_at : (hba i : ℕ) → ℕ
port_at hba i = hba + or_zero (offset_of hba_mem 13) + i * size_of hba_port

pub port_at-eq : (hba i : ℕ) → port_at hba i ≡ hba + 0x100 + i * 0x80
unfolding port_at
port_at-eq hba i = refl

get_elem?-map {ℓ} :
    {A : Type ℓ} (f : A → ℕ) (xs : List A) (r b : ℕ)
    → get_elem? (map f xs) r ≡ some b
    → (x : A) × (get_elem? xs r ≡ some x) × (f x ≡ b)
get_elem?-map f [] r b e = absurd (cc e)
get_elem?-map f (x ∷ xs) zero b e = (x, refl, ground (arith, e))
get_elem?-map f (x ∷ xs) (suc r) b e = get_elem?-map f xs r b e

get_elem?-map-some {ℓ} :
    {A : Type ℓ} (f : A → ℕ) (xs : List A) (r : ℕ) {x : A}
    → get_elem? xs r ≡ some x
    → get_elem? (map f xs) r ≡ some (f x)
get_elem?-map-some f [] r e = absurd (cc e)
get_elem?-map-some f (x ∷ xs) zero {x = y} e = let same : x ≡ y = cc in ap (λ z. some (f z)) same
get_elem?-map-some f (x ∷ xs) (suc r) e = get_elem?-map-some f xs r e

-- Register `r` of port `i` of the 32 ports is at the address that the comments give: 0x100, 0x80 for each port
-- before it, and its own offset. It ends before 0x1100, where the structure ends.
pub port_register-at :
    (hba i r a : ℕ)
    → i < 32
    → get_elem? port_offsets r ≡ some a
    → (s : Span) × (get_elem? (spans 0 hba_port) r ≡ some s)
      × (8 * port_at hba i + s.start ≡ 8 * (hba + 0x100 + i * 0x80 + a))
      × (8 * port_at hba i + s.start + s.width ≤ 8 * (hba + 0x1100))
      × (size_of hba_mem ≡ 0x1100)
port_register-at hba i r a small e =
    let at : get_elem? (map (λ (s : Span). s.start) (spans 0 hba_port)) r ≡ some (8 * a) =
      get_elem?-map-some (λ a. 8 * a) port_offsets r e in
    let (s, here, from) = get_elem?-map (λ (s : Span). s.start) (spans 0 hba_port) r (8 * a) at in
    let (above, below) = spans_bounds 0 hba_port r s here in
    (s, here, omega (arith, from, port_at-eq hba i), omega (arith, below, port_at-eq hba i), refl)
