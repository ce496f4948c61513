-- ===== src/Layout/Descriptors/Tables.antt =====
-- Where the entries of the interrupt table lie.
use literate_os.Common.{ℕ, ◌+◌, ◌*◌, ◌<◌, ◌≡◌, some, get_elem?, arith, inl, inr}
use literate_os.Layout.{Span, spans, size_of, Memory, load_member, store_member}
use literate_os.Layout.Fields.{spans_bounds, load_member-apart}
use literate_os.Layout.Descriptors.{idt_entry}

-- &idt[num]
pub gate_at : (idt num : ℕ) → ℕ
gate_at idt num = idt + num * size_of idt_entry

-- A store to a member of one gate changes no member of another gate.
pub gates-apart :
    (table m n p q value : ℕ) (s t : Span) (mem : Memory)
    → get_elem? (spans 0 idt_entry) p ≡ some s
    → get_elem? (spans 0 idt_entry) q ≡ some t
    → m < n
    → (load_member (gate_at table m) s (store_member (gate_at table n) t value mem)
        ≡ load_member (gate_at table m) s mem)
      × (load_member (gate_at table n) t (store_member (gate_at table m) s value mem)
          ≡ load_member (gate_at table n) t mem)
unfolding gate_at
gates-apart table m n p q value s t mem e e' lt =
    let (above, below) = spans_bounds 0 idt_entry p s e in
    (
      load_member-apart (gate_at table m) (gate_at table n) s t value mem (inl (omega arith)),
      load_member-apart (gate_at table n) (gate_at table m) t s value mem (inr (omega arith)),
    )
