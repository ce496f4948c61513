-- ===== src/Interrupts/Timer.antt =====
-- The timer: Kernel/src/arch/x86/timer.cpp.
use literate_os.Common.{
  ℕ, zero, suc, ◌+◌, ◌*◌, ◌/◌, ◌^◌, ◌≤◌, ◌<◌, bit_and, ◌≡◌, ap, ◌==◌, leb, if◌then◌else◌,
  Bool-cases, inl, inr, arith,
}
use literate_os.Common.Bits.{u8, u64, add32, sub32, ◌>>>◌}
use literate_os.Common.Run.{Run, ok, fault, ◌>>=◌, >>=-ok}
use literate_os.Scheduler.{Scheduler}
use literate_os.Scheduler.Tick.{Here, after_first, tick, ticks}
use literate_os.Interrupts.{Idt, out, register_interrupt_handler}

pub record Timer : Type 0 where
  pub frequency : ℕ
  pub ticks : ℕ
  pub uptime : ℕ

abbrev pub get_system_uptime : Timer → ℕ
get_system_uptime t = t.uptime

abbrev pub get_ticks : Timer → ℕ
get_ticks t = t.ticks

abbrev pub get_frequency : Timer → ℕ
get_frequency t = t.frequency

-- `Handler` before its call of `Scheduler::Tick`.
pub count_tick : Timer → Timer
count_tick t =
    let n = add32 t.ticks 1 in
    if leb t.frequency n
    then record t { ticks = sub32 n t.frequency; uptime = u64 (t.uptime + 1) }
    else record t { ticks = n }

pub handler : Here → Timer → Scheduler → Run (Timer × Scheduler)
unfolding count_tick
handler here t s = do s' ← tick here s; ok (count_tick t, s')

-- `Initialize`: the frequency 0 is a division by zero. `handler_at` is the address of `Handler`.
unfoldable pub initialize_timer : (handler_at freq : ℕ) → Timer → Idt → Run (Timer × Idt)
initialize_timer handler_at freq t s =
    let divisor = 1193182 / freq in
    let low = u8 (bit_and divisor 0xFF) in
    let high = u8 (bit_and (divisor >>> 8) 0xFF) in
    let s' =
      register_interrupt_handler 32 handler_at (out 0x40 high (out 0x40 low (out 0x43 0x36 s))) in
    if freq == 0 then fault else ok (record t { frequency = freq }, s')

-- Timer interrupts in a row, each with its own place.
pub handlers : ℕ → (ℕ → Here) → Timer → Scheduler → Run (Timer × Scheduler)
unfolding handler
handlers zero here t s = ok (t, s)
handlers (suc n) here t s = handler (here 0) t s >>= λ r. handlers n (after_first here) (r.0) (r.1)

-- All ticks that the timer has counted, and the states in which it counts right.
abbrev pub elapsed : Timer → ℕ
elapsed t = t.uptime * t.frequency + t.ticks

pub record IsRunning (t : Timer) : Type 0 where
  pub partial : t.ticks < t.frequency
  pub small : t.frequency < 2 ^ 31

uptime-le : (u f : ℕ) → 0 < f → u ≤ u * f
uptime-le u zero pos = absurd (omega arith)
uptime-le u (suc f) pos = omega arith

count_tick_lem :
    (t : Timer)
    → IsRunning t
    → elapsed t < 2 ^ 63
    → (elapsed (count_tick t) ≡ elapsed t + 1) × IsRunning (count_tick t)
unfolding count_tick
count_tick_lem t run fits =
    let bound = uptime-le t.uptime t.frequency (omega (arith, run.partial)) in
    let wide : u64 (t.uptime + 1) ≡ t.uptime + 1 = omega (arith, bound) in
    let next : add32 t.ticks 1 ≡ t.ticks + 1 = omega (arith, run.partial, run.small) in
    elim (Bool-cases (leb t.frequency (add32 t.ticks 1))) [
      | inl full ↦
          let last : t.frequency ≡ t.ticks + 1 = ground (arith, full, next, run.partial) in
          let none_left : sub32 (add32 t.ticks 1) t.frequency ≡ 0 =
            omega (arith, last, next, run.small) in
          rw (full, wide, none_left)
            (omega (arith, last), record { partial = omega (arith, last); small = run.small })
      | inr more ↦
          let room : t.ticks + 1 < t.frequency = ground (arith, more, next) in
          rw (more, next) (omega arith, record { partial = room; small = run.small })
    ]

-- Any number of timer interrupts, wherever each of them interrupts, on which the scheduler's ticks return: the
-- handler makes exactly these ticks, one for each, the clock counts each of them, and fewer than a second
-- of them are left over in `ticks`. The clock starts with less than a second in `ticks` and a frequency below
-- 2^31, and all ticks counted
-- stay below 2^63.
pub handlers-elapsed :
    (n : ℕ) (here : ℕ → Here) (t : Timer) (s : Scheduler) {s' : Scheduler}
    → IsRunning t
    → elapsed t + n < 2 ^ 63
    → ticks n here s ≡ ok s'
    → (t' : Timer) × (handlers n here t s ≡ ok (t', s'))
      × (elapsed t' ≡ elapsed t + n)
      × (t'.ticks < t'.frequency)
unfolding handlers ticks handler
handlers-elapsed zero here t s run fits e =
    (t, ap (λ (r : Run Scheduler). r >>= λ s'. ok (t, s')) e, omega arith, run.partial)
handlers-elapsed (suc n) here t s {s'} run fits e =
    let (s₁, first, rest) =
      >>=-ok {m = tick (here 0) s} {f = λ s'. ticks n (after_first here) s'} e in
    let (counted, run') = count_tick_lem t run (omega arith) in
    let (t', runs, total, partial) =
      handlers-elapsed n (after_first here) (count_tick t) s₁ run' (omega (arith, counted)) rest in
    (t', rw first runs, omega (arith, counted, total), partial)
