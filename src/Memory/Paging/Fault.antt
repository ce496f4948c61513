-- ===== src/Memory/Paging/Fault.antt =====
-- `PageFaultHandler` of Kernel/src/arch/x86/paging.cpp: what it writes to the log.
use literate_os.Common.{
  ℕ, ◌≡◌, ◌<◌, ◌^◌, refl, bit_and, List, [], ◌∷◌, ◌++◌, ◌==◌, if◌then◌else◌, arith,
}
use literate_os.Common.Run.{Run, ok, ◌>>=◌}
use literate_os.Common.Bits.{bit_and-pow}
use literate_os.Common.Bits.Fields.{bit_of_lt}
use literate_os.Scheduler.{Scheduler, load}
use Prim.Native.String.{String}

-- A line of the log: a text, or a number.
pub data Line : Type 0 where
  text : String → Line
  number : ℕ → Line

abbrev pub line_if : (tested : ℕ) → String → List Line
line_if tested message = if tested == 0 then [] else text message ∷ []

-- The tests of the bits of the error code, in order; `present` is the complement of bit 0.
pub causes : (err_code : ℕ) → List Line
causes err_code =
    line_if (if bit_and err_code 0x1 == 0 then 1 else 0) "page not present"
    ++ (line_if (bit_and err_code 0x2) "Read only"
        ++ (line_if (bit_and err_code 0x4) "User mode process tried to access kernel memory"
            ++ (line_if (bit_and err_code 0x80) "Reserved"
                ++ line_if (bit_and err_code 0x10) "instruction fetch")))

-- All lines, for a process with the PID `pid`.
abbrev pub page_fault_log : (err_code eip fault_address pid : ℕ) → List Line
page_fault_log err_code eip fault_address pid =
    text "Page fault\r\n" ∷ causes err_code
    ++ text "EIP:"
      ∷ text "process"
      ∷ number pid
      ∷ number eip
      ∷ text "\r\nFault address:"
      ∷ number fault_address
      ∷ []

-- The handler up to its call of `KernelPanic`. A fault before there is a process follows a null pointer.
pub page_fault_handler : (err_code eip fault_address : ℕ) → Scheduler → Run (List Line)
unfolding causes
page_fault_handler err_code eip fault_address s = do
  x ← load s s.current
  ok (page_fault_log err_code eip fault_address x.pid)

-- The error codes of the processor, whose bits 0 to 4 say why: that of bit 3, a reserved bit of an entry,
-- is not told, since the handler tests bit 7 instead.
pub causes-reserved :
    (err_code : ℕ)
    → err_code < 2 ^ 5
    → causes err_code
      ≡ line_if (if bit_and err_code 0x1 == 0 then 1 else 0) "page not present"
        ++ (line_if (bit_and err_code 0x2) "Read only"
            ++ (line_if (bit_and err_code 0x4) "User mode process tried to access kernel memory"
                ++ line_if (bit_and err_code 0x10) "instruction fetch"))
unfolding causes
causes-reserved err_code small =
    let unset : bit_and err_code 0x80 ≡ 0 =
      omega (arith, bit_and-pow 7 err_code, bit_of_lt 5 7 err_code small (omega arith)) in
    rw unset refl
