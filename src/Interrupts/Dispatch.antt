-- ===== src/Interrupts/Dispatch.antt =====
-- Registering a handler, and the interrupts that then reach it.
use literate_os.Common.{
  ℕ, ◌%◌, ◌^◌, ◌<◌, ◌≢◌, ◌≡◌, refl, ◌==◌, if◌then◌else◌, arith, false, Bool-cases, inl, inr,
}
use literate_os.Interrupts.{Idt, resumed, register_interrupt_handler, isr_handler, irq_handler}

-- After a handler is registered for an interrupt, both dispatchers run it for that interrupt, and do
-- for every other interrupt what they did before.
pub dispatch-register :
    {K : Type 0} (run : ℕ → K → K) (interrupt handler n : ℕ) (s : Idt) (k : K)
    → interrupt < 256
    → handler ≢ 0
    → let s' = register_interrupt_handler interrupt handler s in
      (isr_handler run n s' k
        ≡ (if n == interrupt then resumed (run handler k) else isr_handler run n s k))
      × ((irq_handler run n s' k).1
          ≡ (if n == interrupt then run handler k else (irq_handler run n s k).1))
unfolding register_interrupt_handler isr_handler irq_handler
dispatch-register run interrupt handler n s k small set =
    let cast : interrupt % 2 ^ 8 ≡ interrupt = omega arith in
    let set_eq : (handler == 0) ≡ false = ground arith in
    elim (Bool-cases (n == interrupt)) [
      | inl same ↦ rw (cast, same, set_eq) (refl, refl)
      | inr other ↦ rw (cast, other) (refl, refl)
    ]
