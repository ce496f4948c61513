-- ===== src/Interrupts.antt =====
-- The interrupt table and the dispatch of interrupts: Kernel/src/arch/x86/idt.cpp.
--
-- Handlers are addresses, 0 for none. The writes to ports are kept in order, the last one first.
pub mod Gates
pub mod Dispatch
pub mod Timer
mod Tests
use literate_os.Common.{
  ℕ, zero, suc, ◌+◌, ◌-◌, ◌*◌, ◌/◌, ◌^◌, bit_and, Bool, true, false, List, [], ◌∷◌, ◌++◌, ◌==◌, leb,
  if◌then◌else◌,
}
use literate_os.Common.Bits.{u8, u16, u32, ◌>>>◌}

-- `idt_entry_t`.
pub record IdtEntry : Type 0 where
  pub base_low : ℕ
  pub sel : ℕ
  pub null : ℕ
  pub flags : ℕ
  pub base_high : ℕ

pub record Outs : Type 0 where
  pub port : ℕ
  pub value : ℕ

pub record Idt : Type 0 where
  pub gates : ℕ → IdtEntry
  pub handlers : ℕ → ℕ
  pub outs : List Outs

abbrev pub gate : (base sel flags : ℕ) → IdtEntry
gate base sel flags = record {
  base_low = u16 (bit_and base 0xFFFF);
  sel = sel;
  null = 0;
  flags = flags;
  base_high = u16 (bit_and (base >>> 16) 0xFFFF);
}

abbrev pub null_gate : IdtEntry
null_gate = record { base_low = 0; sel = 0; null = 0; flags = 0; base_high = 0 }

pub set_gate : (num base sel flags : ℕ) → Idt → Idt
set_gate num base sel flags s = record s {
  gates = λ n. if n == num then gate base sel flags else s.gates n;
}

abbrev pub out : ℕ → ℕ → Idt → Idt
out port value s = record s { outs = record { port = port; value = value } ∷ s.outs }

-- The calls of `SetGate` for the vectors from `first` on, in order. `stub` is the address of the entry
-- point of a vector, which the assembly defines.
pub set_gates : (stub : ℕ → ℕ) (count first : ℕ) → Idt → Idt
unfolding set_gate
set_gates stub zero first s = s
set_gates stub (suc count) first s =
    set_gates stub count (first + 1) (set_gate first (stub first) 0x08 0x8E s)

-- The interrupt controllers are moved to the vectors 32 to 47.
abbrev pub remap : Idt → Idt
remap s = out 0xA1 0x0 (
    out 0x21 0x0 (
      out 0xA1 0x01 (
        out 0x21 0x01 (
          out 0xA1 0x02
            (out 0x21 0x04 (out 0xA1 0x28 (out 0x21 0x20 (out 0xA0 0x11 (out 0x20 0x11 s)))))))))

unfoldable pub initialize : (stub : ℕ → ℕ) → Idt → Idt
unfolding set_gates set_gate
initialize stub s =
    let cleared = record s { gates = λ n. null_gate } in
    let exceptions = set_gate 0x69 (stub 0x69) 0x08 0x8E (set_gates stub 32 0 cleared) in
    record (set_gates stub 16 32 (remap exceptions)) { handlers = λ n. 0 }

unfoldable pub register_interrupt_handler : (interrupt handler : ℕ) → Idt → Idt
register_interrupt_handler interrupt handler s = record s {
  handlers = λ n. if n == u8 interrupt then handler else s.handlers n;
}

-- `isr_handler` returns, or stays in its last loop for ever.
pub data Outcome (K : Type 0) : Type 0 where
  resumed : K → Outcome K
  halted : Outcome K

module _ {K : Type 0} (run : ℕ → K → K) where
  pub isr_handler : (int_num : ℕ) → Idt → K → Outcome K
  isr_handler int_num s k =
      if s.handlers int_num == 0
      then (if int_num == 0x69 then resumed k else halted)
      else resumed (run (s.handlers int_num) k)

  -- The end of the interrupt is reported before the handler runs.
  pub irq_handler : (int_num : ℕ) → Idt → K → Idt × K
  irq_handler int_num s k =
      let second = if leb 40 int_num then out 0x0A 0x20 s else s in
      let done = out 0x20 0x20 second in
      (done, if s.handlers int_num == 0 then k else run (s.handlers int_num) k)
