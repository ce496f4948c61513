-- ===== src/Interrupts/Gates.antt =====
-- The table that `IDT::Initialize` leaves behind.
use literate_os.Common.{
  ℕ, zero, suc, ◌+◌, ◌*◌, ◌/◌, ◌^◌, ◌<◌, ◌≡◌, ap, ◌∙◌, true, false, ◌==◌, leb, ltb, ◌&&◌,
  if◌then◌else◌, Bool-cases, inl, inr, arith, sym, ◌⊎◌, ==_iff,
}
use literate_os.Common.Bits.Fields.{bit_and_mask}
use literate_os.Interrupts.{remap, Idt, IdtEntry, gate, null_gate, set_gate, set_gates, initialize}

-- The address that the processor jumps to.
abbrev pub gate_base : IdtEntry → ℕ
gate_base e = e.base_high * 2 ^ 16 + e.base_low

gate_base-gate : (base sel flags : ℕ) → base < 2 ^ 32 → gate_base (gate base sel flags) ≡ base
gate_base-gate base sel flags small =
    omega (arith, bit_and_mask 16 base, bit_and_mask 16 (base / 2 ^ 16))

set_gates_lem :
    (stub : ℕ → ℕ) (count first n : ℕ) (s : Idt)
    → (set_gates stub count first s).gates n
      ≡ (if leb first n && ltb n (first + count) then gate (stub n) 0x08 0x8E else s.gates n)
unfolding set_gates set_gate
set_gates_lem stub zero first n s = ground arith
set_gates_lem stub (suc count) first n s =
    set_gates_lem stub count (first + 1) n (set_gate first (stub first) 0x08 0x8E s)
    ∙ cases (Bool-cases (n == first))
  where
    cases :
        ((n == first) ≡ true) ⊎ ((n == first) ≡ false)
        → (if leb (first + 1) n && ltb n (first + 1 + count)
            then gate (stub n) 0x08 0x8E
            else (if n == first then gate (stub first) 0x08 0x8E else s.gates n))
          ≡ (if leb first n && ltb n (first + suc count)
              then gate (stub n) 0x08 0x8E
              else s.gates n)
    cases (inl here) =
        let outside : (leb (first + 1) n && ltb n (first + 1 + count)) ≡ false = ground arith in
        let inside : (leb first n && ltb n (first + suc count)) ≡ true = ground arith in
        rw (outside, inside, here)
          (ap (λ (i : ℕ). gate (stub i) 0x08 0x8E) (sym ((==_iff n first).0 here)))
    cases (inr other) =
        let same : (leb (first + 1) n && ltb n (first + 1 + count))
            ≡ (leb first n && ltb n (first + suc count)) =
          ground arith in
        rw (same, other)

Entry : (ℕ → ℕ) → ℕ → Type 0
Entry stub n =
    (if leb 32 n && ltb n (32 + 16)
      then gate (stub n) 0x08 0x8E
      else (if leb 0 n && ltb n (0 + 32) then gate (stub n) 0x08 0x8E else null_gate))
    ≡ (if ltb n 48 then gate (stub n) 0x08 0x8E else null_gate)

entry : (stub : ℕ → ℕ) (n : ℕ) → Entry stub n
unfolding Entry
entry stub n = elim (Bool-cases (leb 32 n && ltb n (32 + 16))) [
  | inl high ↦ let set : ltb n 48 ≡ true = ground arith in rw (high, set)
  | inr not_high ↦ elim (Bool-cases (leb 0 n && ltb n (0 + 32))) [
    | inl low ↦ let set : ltb n 48 ≡ true = ground arith in rw (not_high, low, set)
    | inr not_low ↦ let unset : ltb n 48 ≡ false = ground arith in rw (not_high, not_low, unset)
  ]
]

initialize-entry :
    (stub : ℕ → ℕ) (s : Idt) (n : ℕ)
    → (initialize stub s).gates n ≡ (
        if n == 0x69
        then gate (stub n) 0x08 0x8E
        else (if ltb n 48 then gate (stub n) 0x08 0x8E else null_gate))
unfolding initialize set_gate Entry
initialize-entry stub s n =
    let cleared : Idt = record s { gates = λ n. null_gate } in
    let exceptions : Idt = set_gate 0x69 (stub 0x69) 0x08 0x8E (set_gates stub 32 0 cleared) in
    set_gates_lem stub 16 32 n (remap exceptions) ∙ elim (Bool-cases (n == 0x69)) [
      | inl here ↦
          let above : (leb 32 n && ltb n (32 + 16)) ≡ false = ground arith in
          rw (above, here) (ap (λ (i : ℕ). gate (stub i) 0x08 0x8E) (sym ((==_iff n 0x69).0 here)))
      | inr other ↦ rw (other, set_gates_lem stub 32 0 n cleared) (entry stub n)
    ]

-- After `IDT::Initialize` the gates of the vectors 0 to 47 and 0x69 hold the address of their entry
-- points, and lead through the code segment 8 as present interrupt gates.
pub initialize-gate_base :
    (stub : ℕ → ℕ) (s : Idt) (n : ℕ)
    → stub n < 2 ^ 32
    → (n < 48) ⊎ (n ≡ 0x69)
    → (gate_base ((initialize stub s).gates n) ≡ stub n)
      × (((initialize stub s).gates n).sel ≡ 0x08)
      × (((initialize stub s).gates n).flags ≡ 0x8E)
initialize-gate_base stub s n small known =
    let at : (initialize stub s).gates n ≡ gate (stub n) 0x08 0x8E =
      initialize-entry stub s n ∙ chosen known in
    (
      ap gate_base at ∙ gate_base-gate (stub n) 0x08 0x8E small,
      ap (λ (e : IdtEntry). e.sel) at,
      ap (λ (e : IdtEntry). e.flags) at,
    )
  where
    chosen :
        (n < 48) ⊎ (n ≡ 0x69)
        → (if n == 0x69
            then gate (stub n) 0x08 0x8E
            else (if ltb n 48 then gate (stub n) 0x08 0x8E else null_gate))
          ≡ gate (stub n) 0x08 0x8E
    chosen (inl low) =
        let a : (n == 0x69) ≡ false = ground arith in
        let b : ltb n 48 ≡ true = ground arith in rw (a, b)
    chosen (inr e) = let a : (n == 0x69) ≡ true = ground arith in rw a
