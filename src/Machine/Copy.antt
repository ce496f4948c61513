-- ===== src/Machine/Copy.antt =====
-- `memcpy_optimized` of Kernel/src/arch/x86/sse2.cpp and the loops of Kernel/src/arch/x86/sse2.asm that it calls.
--
-- `size_t` has 32 bits. `loop` decrements before it tests, so a count of 0 means 2^32 rounds. `memcpy` is the
-- standard library's.
pub mod Laws
use literate_os.Common.{
  ℕ, zero, suc, ◌+◌, ◌-◌, ◌*◌, ◌/◌, ◌%◌, ◌^◌, true, false, ◌==◌, leb, ltb, ◌&&◌, ◌||◌, not,
  if◌then◌else◌,
}
use literate_os.Common.Bits.{u32}
use literate_os.Common.Run.{Run, ok, fault, ◌>>=◌}

-- `memcpy`, on areas that do not overlap; also one round of the loops, which reads 16 bytes and then writes them.
abbrev pub copied : (ℕ → ℕ) → (dest from n : ℕ) → ℕ → ℕ
copied bytes dest from n a =
    if leb dest a && ltb a (dest + n) then bytes (from + (a - dest)) else bytes a

pub sse_loop : (rounds dest from : ℕ) → (ℕ → ℕ) → ℕ → ℕ
sse_loop zero dest from bytes = bytes
sse_loop (suc rounds) dest from bytes =
    sse_loop rounds (u32 (dest + 0x10)) (u32 (from + 0x10)) (copied bytes dest from 0x10)

-- The rounds of `loop` from a count in `ecx`.
pub rounds_of : ℕ → ℕ
rounds_of ecx = if ecx == 0 then 2 ^ 32 else ecx

-- `movdqa` faults on an address that is no multiple of 16.
pub memcpy_sse2 : (dest from count : ℕ) → (ℕ → ℕ) → Run (ℕ → ℕ)
memcpy_sse2 dest from count bytes =
    if dest % 0x10 == 0 && from % 0x10 == 0
    then ok (sse_loop (rounds_of count) dest from bytes)
    else fault

pub memcpy_sse_unaligned : (dest from count : ℕ) → (ℕ → ℕ) → Run (ℕ → ℕ)
memcpy_sse_unaligned dest from count bytes = ok (sse_loop (rounds_of count) dest from bytes)

pub memcpy_optimized : (dest from count : ℕ) → (ℕ → ℕ) → Run (ℕ → ℕ)
memcpy_optimized dest from count bytes = do
  let overflow = count % 0x10
  let size_aligned = count - overflow
  blocks ←
      if not (dest % 0x10 == 0) || not (from % 0x10 == 0)
      then memcpy_sse_unaligned dest from (size_aligned / 0x10) bytes
      else memcpy_sse2 dest from (size_aligned / 0x10) bytes
  ok (
      if ltb 0 overflow
      then copied blocks (u32 (dest + size_aligned)) (u32 (from + size_aligned)) overflow
      else blocks)
