-- ===== src/Scheduler/System/Laws.antt =====
-- Every step keeps the queue well formed.
use literate_os.Common.{
  ℕ, ◌+◌, ◌<◌, ◌≤◌, ◌^◌, ◌≡◌, ◌≢◌, refl, sym, subst, ap, ◌∙◌, true, none, List, [], ◌∷◌, arith,
  length,
}
use literate_os.Common.Bits.{u32, add32}
use literate_os.Common.Run.{ok, ok-inj, >>=-ok}
use literate_os.Scheduler.{Ptr, ProgramHeader, Process, Scheduler, store, insert_process_into_queue}
use literate_os.Scheduler.Ring.Pids.{insert-SamePids, load-eq-ok}
use literate_os.Scheduler.Lifecycle.{
  MemoryOps, ElfHeader, new_process, no_directory, allocate_stack, load_segments, create_process,
  load_elf,
}
use literate_os.Scheduler.System.{
  WellFormed, Step, timer, send, register, lock, describe, create, load_file, exit, Steps, start,
  later, created, creations, EndsOther, StartStays,
}
use literate_os.Scheduler.System.Entry.{WellFormed-same, WellFormed-update, WellFormed-insert}
use literate_os.Scheduler.System.Leave.{WellFormed-exit, exit-next_pid}
use literate_os.Scheduler.System.InPlace.{
  tick-WellFormed, send_message-WellFormed, register_handle-WellFormed,
}

module _ {M : Type 0} (ops : MemoryOps M) where
  -- The end of `CreateProcess` and of `LoadELF`.
  entered-WellFormed :
      (fresh : Ptr) (x : Process) (s : Scheduler) (ps : List Ptr) {s₂ s' : Scheduler}
      → WellFormed s ps
      → fresh ≢ 0
      → s.procs fresh ≡ none
      → s.next_pid + 1 < 2 ^ 32
      → x.pid ≡ s.next_pid
      → insert_process_into_queue fresh
          (store (record s { locked = true; next_pid = add32 s.next_pid 1 }) fresh x)
        ≡ ok s₂
      → record s₂ { locked = s.locked } ≡ s'
      → WellFormed s' (fresh ∷ ps) × (s'.next_pid ≡ s.next_pid + 1)
  entered-WellFormed fresh x s ps {s₂} {s'} w nz free few pid inserted e =
      let s₁ : Scheduler =
        store (record s { locked = true; next_pid = add32 s.next_pid 1 }) fresh x in
      let next : add32 s.next_pid 1 ≡ s.next_pid + 1 = omega arith in
      let w₂ : WellFormed s₂ (fresh ∷ ps) =
        WellFormed-insert s₁ fresh x w nz free pid refl refl refl next inserted in
      let same = insert-SamePids fresh s₁ inserted in
      (
        subst (λ t. WellFormed t (fresh ∷ ps)) e
            (WellFormed-same w₂ (record { pids = λ a. refl; next = refl }) refl w₂.ring w₂.runs),
        sym (ap (λ (t : Scheduler). t.next_pid) e) ∙ same.next ∙ next,
      )

  create_process-WellFormed :
      (fresh entry : ℕ) (s : Scheduler) (m : M) (ps : List Ptr) {pid : ℕ} {s' : Scheduler} {m' : M}
      → WellFormed s ps
      → fresh ≢ 0
      → s.procs fresh ≡ none
      → s.next_pid + 1 < 2 ^ 32
      → create_process ops fresh entry s m ≡ ok (pid, s', m')
      → WellFormed s' (fresh ∷ ps) × (s'.next_pid ≡ s.next_pid + 1)
  unfolding create_process
  create_process-WellFormed fresh entry s m ps w nz free few run =
      let ((top, m₁), stack, r₁) = >>=-ok {m = allocate_stack ops m} run in
      let x = new_process s.next_pid (u32 entry) top no_directory 1 1 [] in
      let (s₂, inserted, r₂) =
        >>=-ok
          {m = insert_process_into_queue fresh
            (store (record s { locked = true; next_pid = add32 s.next_pid 1 }) fresh x)}
          r₁ in
      entered-WellFormed fresh x s ps w nz free few refl inserted
        (ap (λ (r : ℕ × Scheduler × M). r.1) (ok-inj r₂))

  load_elf-WellFormed :
      (header_at : ℕ → ProgramHeader) (header : ElfHeader) (fresh elf : ℕ) (s : Scheduler) (m : M)
      (ps : List Ptr) {pid : ℕ} {s' : Scheduler} {m' : M}
      → WellFormed s ps
      → fresh ≢ 0
      → s.procs fresh ≡ none
      → s.next_pid + 1 < 2 ^ 32
      → load_elf ops header_at header fresh elf s m ≡ ok (pid, s', m')
      → WellFormed s' (fresh ∷ ps) × (s'.next_pid ≡ s.next_pid + 1)
  unfolding load_elf
  load_elf-WellFormed header_at header fresh elf s m ps w nz free few run =
      let ((dir, m₀), spaces, r₀) = >>=-ok {m = ops.create_address_space m} run in
      let ((phs, m₁), loaded, r₁) =
        >>=-ok {m = load_segments ops header_at s elf dir header header.e_phnum 0 m₀} r₀ in
      let ((top, m₂), stack, r₂) = >>=-ok {m = allocate_stack ops m₁} r₁ in
      let x = new_process s.next_pid header.e_entry top dir 0 15 phs in
      let (s₂, inserted, r₃) =
        >>=-ok
          {m = insert_process_into_queue fresh
            (store (record s { locked = true; next_pid = add32 s.next_pid 1 }) fresh x)}
          r₂ in
      entered-WellFormed fresh x s ps w nz free few refl inserted
        (ap (λ (r : ℕ × Scheduler × M). r.1) (ok-inj r₃))

  module _ (fuel : ℕ) where
    -- The queue after a step: no longer than before, but for a process that the step creates.
    After : {s s' : Scheduler} {m m' : M} → List Ptr → Step ops fuel s m s' m' → Type 0
    After {s} {s'} ps step =
        (ps' : List Ptr) × WellFormed s' ps'
        × (length ps' ≤ length ps + created ops fuel step)
        × (s'.next_pid ≡ s.next_pid + created ops fuel step)

    Step-After :
        {s : Scheduler} {m : M} {s' : Scheduler} {m' : M} (ps : List Ptr)
        (step : Step ops fuel s m s' m')
        → EndsOther ops fuel step
        → WellFormed s ps
        → length ps ≤ fuel
        → s.next_pid + created ops fuel step < 2 ^ 32
        → After ps step
    unfolding After
    Step-After {s} ps (timer now run e) other w enough few =
        let (w', same) = tick-WellFormed now s ps w run in
        (ps, w', omega arith, omega (arith, same))
    Step-After {s} ps (send msg code run e) other w enough few =
        let (w', same) = send_message-WellFormed fuel msg s ps w run in
        (ps, w', omega arith, omega (arith, same))
    Step-After {s} ps (register handle run e) other w enough few =
        let (w', same) = register_handle-WellFormed handle s ps w run in
        (ps, w', omega arith, omega (arith, same))
    Step-After {s} {s' = s'} ps (lock b e e') other w enough few =
        let locked : Scheduler = record s { locked = b } in
        let w' : WellFormed locked ps =
          WellFormed-same w (record { pids = λ a. refl; next = refl }) refl w.ring w.runs in
        (
          ps,
          subst (λ t. WellFormed t ps) (sym e) w',
          omega arith,
          omega (arith, ap (λ (t : Scheduler). t.next_pid) e),
        )
    Step-After {s} ps (describe x fds at e) other w enough few =
        let y : Process = record x { file_descriptors = fds } in
        let w' : WellFormed (store s s.current y) ps =
          WellFormed-update s.current x y w (load-eq-ok s s.current at).1 refl refl refl refl refl
            w.runs in
        (
          ps,
          subst (λ t. WellFormed t ps) (sym e) w',
          omega arith,
          omega (arith, ap (λ (t : Scheduler). t.next_pid) e),
        )
    Step-After {s} {m} ps (create fresh entry pid nz free run) other w enough few =
        let (w', next) = create_process-WellFormed fresh entry s m ps w nz free few run in
        (fresh ∷ ps, w', omega arith, next)
    Step-After {s} {m} ps (load_file header_at header fresh elf pid nz free run) other w enough
          few =
        let (w', next) = load_elf-WellFormed header_at header fresh elf s m ps w nz free few run in
        (fresh ∷ ps, w', omega arith, next)
    Step-After {s} {m} ps (exit run) other w enough few =
        let (ps', w', fewer) =
          WellFormed-exit ops fuel s.current s m ps w other w.runs enough run in
        (ps', w', omega arith, omega (arith, exit-next_pid ops fuel s.current s m run))

    -- From a well-formed queue, after any timer ticks, messages, handles, locks, new
    -- descriptors, and created, loaded and ended processes in any order, the queue is well formed, it
    -- has grown by at most the processes that were created, and each of these has taken one PID: if the process
    -- that starts the queue does not exit, the PIDs do not run out, and the walks of the queue have as much
    -- fuel as there are processes.
    pub Steps-WellFormed :
        {s : Scheduler} {m : M} {s' : Scheduler} {m' : M} (ps : List Ptr)
        (steps : Steps ops fuel s m s' m')
        → StartStays ops fuel steps
        → WellFormed s ps
        → length ps + creations ops fuel steps ≤ fuel
        → s.next_pid + creations ops fuel steps < 2 ^ 32
        → (ps' : List Ptr) × WellFormed s' ps'
          × (length ps' ≤ length ps + creations ops fuel steps)
          × (s'.next_pid ≡ s.next_pid + creations ops fuel steps)
    unfolding After
    Steps-WellFormed ps start stays w enough few = (ps, w, omega arith, omega arith)
    Steps-WellFormed ps (later steps step) stays w enough few =
        let (ps₁, w₁, short, next) =
          Steps-WellFormed ps steps stays.0 w (omega arith) (omega arith) in
        let (ps₂, w₂, short', next') = Step-After ps₁ step stays.1 w₁ (omega arith) (omega arith) in
        (ps₂, w₂, omega arith, omega arith)
