-- ===== src/Devices/Gdt.antt =====
-- The segment table: Kernel/src/arch/x86/gdt.cpp.
--
-- `SetGate` goes on, after it has set an entry, with the calls that fill the whole table.
use literate_os.Common.{
  ℕ, zero, suc, ◌<◌, bit_and, bit_or, ◌≡◌, refl, false, ◌==◌, leb, if◌then◌else◌, arith,
}
use literate_os.Common.Bits.{u8, u16, ◌>>>◌}
use literate_os.Common.Run.{Run, fault, out_of_fuel, ◌>>=◌}

-- `gdt_entry_t`, which has no place for bits 16 to 23 of the base: `SetGate` assigns them to a member
-- `base_middle` that is not declared, and they are lost here.
pub record GdtEntry : Type 0 where
  pub limit_low : ℕ
  pub base_low : ℕ
  pub access : ℕ
  pub granularity : ℕ
  pub base_high : ℕ

abbrev pub segment : (base limit access granularity : ℕ) → GdtEntry
segment base limit access granularity = record {
  limit_low = u16 (bit_and limit 0xFFFF);
  base_low = u16 (bit_and base 0xFFFF);
  access = access;
  granularity = u8 (bit_or (bit_and (limit >>> 16) 0x0F) (bit_and granularity 0xF0));
  base_high = u8 (bit_and (base >>> 24) 0xFF);
}

-- The table has five entries.
pub set_segment : (fuel num base limit access granularity : ℕ) → (ℕ → GdtEntry) → Run (ℕ → GdtEntry)
set_segment zero num base limit access granularity gdt = out_of_fuel
set_segment (suc fuel) num base limit access granularity gdt =
    let gdt' = λ (n : ℕ). if n == num then segment base limit access granularity else gdt n in
    let all = (do
      gdt ← set_segment fuel 0 0 0 0 0 gdt'
      gdt ← set_segment fuel 1 0 0xFFFFFFFF 0x9A 0xCF gdt
      gdt ← set_segment fuel 2 0 0xFFFFFFFF 0x92 0xCF gdt
      gdt ← set_segment fuel 3 0 0xFFFFFFFF 0xFA 0xCF gdt
      set_segment fuel 4 0 0xFFFFFFFF 0xF2 0xCF gdt) in
    if leb 5 num then fault else all

-- `SetGate` of an entry of the table never returns: its first call of itself is a call of the same kind.
pub set_segment-out_of_fuel :
    (fuel num base limit access granularity : ℕ) (gdt : ℕ → GdtEntry)
    → num < 5
    → set_segment fuel num base limit access granularity gdt ≡ out_of_fuel
unfolding set_segment
set_segment-out_of_fuel zero num base limit access granularity gdt inside = refl
set_segment-out_of_fuel (suc fuel) num base limit access granularity gdt inside =
    let t : leb 5 num ≡ false = ground arith in
    let gdt' = λ (n : ℕ). if n == num then segment base limit access granularity else gdt n in
    rw (t, set_segment-out_of_fuel fuel 0 0 0 0 0 gdt' (omega arith))
