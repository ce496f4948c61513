-- ===== src/Interrupts/Tests.antt =====
-- Runs of the interrupt table and the timer, and their theorems at concrete states.
use literate_os.Common.{true, ℕ, ◌+◌, ◌*◌, ◌<◌, ◌≡◌, refl, [], arith}
use literate_os.Common.Run.{ok}
use literate_os.Scheduler.{Scheduler}
use literate_os.Scheduler.Tick.{Here, ticks, ticks-locked}
use literate_os.Scheduler.Tests.{three, proc}
use literate_os.Interrupts.{
  Idt, null_gate, resumed, register_interrupt_handler, isr_handler, irq_handler,
}
use literate_os.Interrupts.Dispatch.{dispatch-register}
use literate_os.Interrupts.Timer.{Timer, IsRunning, elapsed, handlers, handlers-elapsed}

abbrev stubs : ℕ → ℕ
stubs n = 0xC0101000 + 16 * n

abbrev empty : Idt
empty = record { gates = λ n. null_gate; handlers = λ n. 0; outs = [] }

abbrev note_run : ℕ → ℕ → ℕ
note_run handler k = k + handler

dispatch_run :
    (isr_handler note_run 0x69 (register_interrupt_handler 0x69 500 empty) 1 ≡ resumed 501)
    × ((irq_handler note_run 0x69 (register_interrupt_handler 0x69 500 empty) 1).1 ≡ 501)
dispatch_run = dispatch-register note_run 0x69 500 0x69 empty 1 (omega arith) (omega arith)

abbrev clock : Timer
clock = record { frequency = 2; ticks = 1; uptime = 7 }

clock-IsRunning : IsRunning clock
clock-IsRunning = record { partial = omega arith; small = omega arith }

abbrev here : Here
here = record { eip = 0xC0100500; esp = 0xC0300000; ebp = 0xC0300010 }

-- The places of several interruptions.
abbrev places : ℕ → Here
places i = record { eip = 0xC0100500 + i; esp = 0xC0300000; ebp = 0xC0300010 }

abbrev locked : Scheduler
locked = record three { locked = true }

five_ticks : (s' : Scheduler) × (ticks 5 places locked ≡ ok s')
five_ticks =
    let (s', run, slice, others, current, cpu) =
      ticks-locked 5 places locked (proc 1 32 2) refl (omega arith) refl in
    (s', run)

handlers-elapsed_example :
    (t' : Timer) × (handlers 5 places clock locked ≡ ok (t', five_ticks.0))
    × (elapsed t' ≡ elapsed clock + 5)
    × (t'.ticks < t'.frequency)
handlers-elapsed_example =
    handlers-elapsed 5 places clock locked clock-IsRunning (omega arith) (five_ticks.1)
