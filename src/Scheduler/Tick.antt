-- ===== src/Scheduler/Tick.antt =====
-- `Scheduler::Tick`: time slices and the switch to the next process.
use literate_os.Common.{
  ℕ, zero, suc, ◌+◌, ◌-◌, ◌<◌, ◌≡◌, refl, ap, ◌∙◌, ◌≢◌, true, false, some, ◌==◌, ltb, if◌then◌else◌,
  arith, Bool-cases, ltb→lt, inl, inr,
}
use literate_os.Common.Run.{Run, ok, ◌>>=◌}
use literate_os.Scheduler.{Ptr, Process, Cpu, Scheduler, load, store}
use literate_os.Scheduler.Ring.{load-ok}

-- `ReadEIP`, and `esp` and `ebp` as the inline assembly reads them.
pub record Here : Type 0 where
  pub eip : ℕ
  pub esp : ℕ
  pub ebp : ℕ

-- The value of `eip` by which a resumed process knows that the switch is over.
abbrev pub resumed_eip : ℕ
resumed_eip = 0xC0000123

abbrev pub switched : Process → Cpu → Cpu
switched x cpu = record {
  entry_point = x.registers.eip;
  stack = x.registers.esp;
  base = x.registers.ebp;
  page_directory = x.page_directory.page_directory_phys;
  switches = cpu.switches + 1;
}

abbrev pub saved : Here → Process → Process
saved here x = record x {
  registers = record x.registers { eip = here.eip; esp = here.esp; ebp = here.ebp };
}

-- `currentProcess = p`, the four globals, and `TaskSwitch`.
unfoldable pub switch_to : Ptr → Scheduler → Run Scheduler
switch_to p s = do x ← load s p; ok (record s { current = p; cpu = switched x s.cpu })

-- The part of `Tick` behind the two early returns, with `x` the current process.
unfoldable pub expire : Here → Process → Scheduler → Run Scheduler
expire here x s =
    let x' = record x { time_slice = x.time_slice_default } in
    if here.eip == resumed_eip
    then ok (store s s.current x')
    else switch_to x.next (store s s.current (saved here x'))

unfoldable pub tick : Here → Scheduler → Run Scheduler
tick here s = do
  x ← load s s.current
  let running = ok (store s s.current (record x { time_slice = x.time_slice - 1 }))
  if ltb 0 x.time_slice then running else if s.locked then ok s else expire here x s

-- Where the interruptions from the second on take place.
abbrev pub after_first : (ℕ → Here) → ℕ → Here
after_first here i = here (suc i)

-- Timer interrupts in a row, each with its own place.
unfoldable pub ticks : ℕ → (ℕ → Here) → Scheduler → Run Scheduler
ticks zero here s = ok s
ticks (suc n) here s = tick (here 0) s >>= λ s'. ticks n (after_first here) s'

module _ (here : Here) (s : Scheduler) (x : Process) (nz : s.current ≢ 0)
    (at : s.procs s.current ≡ some x) where
  tick_runs :
      0 < x.time_slice
      → tick here s ≡ ok (store s s.current (record x { time_slice = x.time_slice - 1 }))
  unfolding tick
  tick_runs more =
      let t : ltb 0 x.time_slice ≡ true = ground arith in rw (load-ok s s.current x nz at, t)

  tick_waits : x.time_slice ≡ 0 → s.locked ≡ true → tick here s ≡ ok s
  unfolding tick
  tick_waits over locked =
      let t : ltb 0 x.time_slice ≡ false = ground arith in
      rw (load-ok s s.current x nz at, t, locked)

  tick_switches :
      (y : Process)
      → x.time_slice ≡ 0
      → s.locked ≡ false
      → here.eip ≢ resumed_eip
      → x.next ≢ 0
      → x.next ≢ s.current
      → s.procs x.next ≡ some y
      → tick here s
        ≡ ok
            (record (store s s.current
              (saved here (record x { time_slice = x.time_slice_default }))) {
                current = x.next;
                cpu = switched y s.cpu;
              })
  unfolding tick expire switch_to load
  tick_switches y over unlocked fresh next_set other at_next =
      let t : ltb 0 x.time_slice ≡ false = ground arith in
      let e : (here.eip == resumed_eip) ≡ false = ground arith in
      let after = store s s.current (saved here (record x { time_slice = x.time_slice_default })) in
      rw (
        load-ok s s.current x nz at,
        t,
        unlocked,
        e,
        load-ok after x.next y next_set (ground arith),
      )

-- While the scheduler is locked no number of ticks switches the task or changes the current process:
-- the ticks use up its slice, and then do nothing.
pub ticks-locked :
    (n : ℕ) (here : ℕ → Here) (s : Scheduler) (x : Process)
    → s.locked ≡ true
    → s.current ≢ 0
    → s.procs s.current ≡ some x
    → (s' : Scheduler) × (ticks n here s ≡ ok s')
      × (s'.procs s.current ≡ some (record x { time_slice = x.time_slice - n }))
      × ((a : Ptr) → a ≢ s.current → s'.procs a ≡ s.procs a)
      × (s'.current ≡ s.current)
      × (s'.cpu ≡ s.cpu)
unfolding ticks
ticks-locked zero here s x locked nz at =
    let same : x.time_slice ≡ x.time_slice - 0 = omega arith in
    (s, refl, at ∙ ap (λ k. some (record x { time_slice = k })) same, λ a ne. refl, refl, refl)
ticks-locked (suc n) here s x locked nz at = elim (Bool-cases (ltb 0 x.time_slice)) [
  | inl more ↦
      let s₁ = store s s.current (record x { time_slice = x.time_slice - 1 }) in
      let (s', run, left, same, current', cpu') =
        ticks-locked n (after_first here) s₁ (record x { time_slice = x.time_slice - 1 }) locked nz
          (ground arith) in
      let e : x.time_slice - 1 - n ≡ x.time_slice - suc n = omega arith in
      (
        s',
        rw (tick_runs (here 0) s x nz at (ltb→lt 0 x.time_slice more)) run,
        left ∙ ap (λ k. some (record x { time_slice = k })) e,
        λ a ne. same a ne ∙ ground arith,
        current',
        cpu',
      )
  | inr over ↦
      let none_left : x.time_slice ≡ 0 = ground arith in
      let (s', run, left, same, current', cpu') =
        ticks-locked n (after_first here) s x locked nz at in
      let e : x.time_slice - n ≡ x.time_slice - suc n = omega arith in
      (
        s',
        rw (tick_waits (here 0) s x nz at none_left locked) run,
        left ∙ ap (λ k. some (record x { time_slice = k })) e,
        same,
        current',
        cpu',
      )
]

-- With the scheduler unlocked, a current process with `n` ticks left in its slice and another one behind it, and
-- no tick that finds the resumed `eip`: after `n` + 1 ticks the next process in the ring is current, with its
-- registers and page directory on the processor, in one switch; the first one has a new slice and the place
-- where the last of the ticks interrupted it, and no other process has changed.
pub ticks-switch :
    (n : ℕ) (here : ℕ → Here) (s : Scheduler) (x y : Process)
    → s.locked ≡ false
    → ((i : ℕ) → (here i).eip ≢ resumed_eip)
    → s.current ≢ 0
    → s.procs s.current ≡ some x
    → x.time_slice ≡ n
    → x.next ≢ 0
    → x.next ≢ s.current
    → s.procs x.next ≡ some y
    → (s' : Scheduler) × (ticks (suc n) here s ≡ ok s')
      × (s'.current ≡ x.next)
      × (s'.cpu ≡ switched y s.cpu)
      × (s'.procs s.current
          ≡ some (saved (here n) (record x { time_slice = x.time_slice_default })))
      × ((a : Ptr) → a ≢ s.current → s'.procs a ≡ s.procs a)
unfolding ticks
ticks-switch zero here s x y unlocked fresh nz at slice next_set other at_next = (
  record (store s s.current (saved (here 0) (record x { time_slice = x.time_slice_default }))) {
    current = x.next;
    cpu = switched y s.cpu;
  },
  rw (tick_switches (here 0) s x nz at y slice unlocked (fresh 0) next_set other at_next),
  refl,
  refl,
  ground arith,
  λ a ne. ground arith,
)
ticks-switch (suc n) here s x y unlocked fresh nz at slice next_set other at_next =
    let x₁ = record x { time_slice = x.time_slice - 1 } in
    let s₁ = store s s.current x₁ in
    let (s', run, current', cpu', saved', same) =
      ticks-switch n (after_first here) s₁ x₁ y unlocked (λ i. fresh (suc i)) nz (ground arith)
        (omega arith) next_set other (ground arith) in
    (
      s',
      rw (tick_runs (here 0) s x nz at (omega arith)) run,
      current',
      cpu',
      saved',
      λ a ne. same a ne ∙ ground arith,
    )
