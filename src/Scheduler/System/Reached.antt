-- ===== src/Scheduler/System/Reached.antt =====
-- The states of the scheduler that the kernel reaches after `Initialize`.
use literate_os.Common.{
  ℕ, ◌+◌, ◌^◌, ◌<◌, ◌≤◌, ◌≡◌, ◌≢◌, refl, ap, ◌∙◌, sym, subst, true, false, some, List, [], ◌∷◌,
  length, ◌==◌, arith,
}
use literate_os.Common.Bits.{u32, add32}
use literate_os.Common.Run.{ok, write_self, >>=-eq-ok, >>=-ok, ok-inj}
use literate_os.Scheduler.{Ptr, Process, Scheduler, load, store, insert_process_into_queue}
use literate_os.Scheduler.Ring.{load-ok, Seg}
use literate_os.Scheduler.Ring.Pids.{pid_at, pid_of}
use literate_os.Scheduler.Tick.{switched}
use literate_os.Scheduler.Lifecycle.{
  MemoryOps, new_process, no_directory, allocate_stack, create_process,
}
use literate_os.Scheduler.Startup.{initialize, with_directory}
use literate_os.Scheduler.System.{WellFormed, Steps, creations, StartStays}
use literate_os.Scheduler.System.Laws.{Steps-WellFormed}

-- The first process of a queue is its own successor, and runs.
insert-first :
    (fresh : Ptr) (s : Scheduler) (x : Process)
    → s.queue_start ≡ 0
    → load s fresh ≡ ok x
    → insert_process_into_queue fresh s
      ≡ ok (record (store s fresh (record x { next = fresh })) {
        queue_start = fresh;
        current = fresh;
      })
unfolding insert_process_into_queue
insert-first fresh s x empty at =
    let e : (s.queue_start == 0) ≡ true = ground (arith, empty) in rw (e, at) refl

-- The idle process after `Initialize`.
abbrev pub idle_process : (pid fresh idle top kernel_directory : ℕ) → Process
idle_process pid fresh idle top kernel_directory =
    with_directory kernel_directory
      (record (new_process pid (u32 idle) top no_directory 1 1 []) { next = fresh })

module _ {M : Type 0} (ops : MemoryOps M) where
  idle_created :
      (fresh idle : ℕ) (s : Scheduler) (m : M) {top : ℕ} {m' : M}
      → s.queue_start ≡ 0
      → fresh ≢ 0
      → allocate_stack ops m ≡ ok (top, m')
      → (s' : Scheduler) × (create_process ops fresh idle s m ≡ ok (s.next_pid, s', m'))
        × (s'.procs fresh
            ≡ some (record (new_process s.next_pid (u32 idle) top no_directory 1 1 []) {
              next = fresh;
            }))
        × (s'.queue_start ≡ fresh)
        × (s'.current ≡ fresh)
        × (s'.next_pid ≡ add32 s.next_pid 1)
        × (s'.cpu ≡ s.cpu)
  unfolding create_process
  idle_created fresh idle s m {top} {m'} empty nz stacked =
      let x = new_process s.next_pid (u32 idle) top no_directory 1 1 [] in
      let s₁ = store (record s { locked = true; next_pid = add32 s.next_pid 1 }) fresh x in
      let s₂ : Scheduler = record (store s₁ fresh (record x { next = fresh })) {
        queue_start = fresh;
        current = fresh;
        locked = s.locked;
      } in
      let run =
        insert-first fresh s₁ x empty (load-ok s₁ fresh x nz (write_self s.procs fresh (some x))) in
      (
        s₂,
        rw (stacked, run),
        write_self s₁.procs fresh (some (record x { next = fresh })),
        refl,
        refl,
        refl,
        refl,
      )

  -- `Initialize` returns, if the idle process gets its stack: it is then the only process of the queue,
  -- it is what the processor has switched to, and the scheduler is unlocked.
  pub initialize-WellFormed :
      (fresh idle kernel_directory : ℕ) (s : Scheduler) (m : M) {top : ℕ} {m' : M}
      → s.queue_start ≡ 0
      → s.next_pid ≡ 0
      → fresh ≢ 0
      → allocate_stack ops m ≡ ok (top, m')
      → (s' : Scheduler) × (initialize ops fresh idle kernel_directory s m ≡ ok (s', m'))
        × WellFormed s' []
        × (s'.current ≡ fresh)
        × (s'.procs fresh ≡ some (idle_process s.next_pid fresh idle top kernel_directory))
        × (s'.locked ≡ false)
        × (s'.next_pid ≡ 1)
        × (s'.cpu ≡ switched (idle_process s.next_pid fresh idle top kernel_directory) s.cpu)
  unfolding initialize
  initialize-WellFormed fresh idle kernel_directory s m {top} {m'} empty unset nz stacked =
      let y = idle_process s.next_pid fresh idle top kernel_directory in
      let (s₁, created, at, start, current, next, cpu) =
        idle_created fresh idle (record s { locked = true; handles = [] }) m empty nz stacked in
      let s' : Scheduler = record (store s₁ s₁.current y) {
        locked = false;
        cpu = switched y s₁.cpu;
      } in
      let loaded = load-ok s₁ s₁.current _ (rw current nz) (ap s₁.procs current ∙ at) in
      let holds : s'.procs fresh ≡ some y = ground (arith, current) in
      (
        s',
        >>=-eq-ok _ created (>>=-eq-ok _ loaded refl),
        record {
          ring = record {
            closed = subst (λ q. Seg s'.procs q (q ∷ []) q) (sym start) (refl, nz, y, holds, refl);
            distinct = (refl, tt);
          };
          runs = ground (arith, start, current);
          unique = λ a b n ma mb pa pb. ground (arith, start);
          given = λ a n ma pa.
              let here : a ≡ fresh = ground (arith, start) in
              let first : some n ≡ some s.next_pid =
                sym pa ∙ ap (pid_at s'.procs) here ∙ ap pid_of holds in
              let same : n ≡ s.next_pid = ground (arith, first) in omega (arith, same, unset, next);
        },
        current,
        holds,
        refl,
        next ∙ ap (λ n. add32 n 1) unset,
        ap (switched y) cpu,
      )

  initialize-stack :
      (fresh idle kernel_directory : ℕ) (s : Scheduler) (m : M) {s' : Scheduler} {m' : M}
      → initialize ops fresh idle kernel_directory s m ≡ ok (s', m')
      → (top : ℕ) × (k : M) × (allocate_stack ops m ≡ ok (top, k))
  unfolding initialize create_process
  initialize-stack fresh idle kernel_directory s m run =
      let (r, created, rest) = >>=-ok run in
      let ((top, k), stacked, inserted) = >>=-ok created in (top, k, stacked)

  -- After `Initialize` of the scheduler as the program starts, after any timer ticks, messages,
  -- handles, locks, new descriptors, and created, loaded and ended processes in any order, the queue is well formed, it has no more processes beside the first than were created since, and one PID was
  -- given out for the first process and one for each of these; if the first process does not exit, the PIDs do
  -- not run out, and the walks of the queue have as much fuel as processes were created.
  pub reached-WellFormed :
      (fuel fresh idle kernel_directory : ℕ) (s : Scheduler) (m : M) {s' t : Scheduler} {m' k : M}
      → s.queue_start ≡ 0
      → s.next_pid ≡ 0
      → fresh ≢ 0
      → initialize ops fresh idle kernel_directory s m ≡ ok (s', m')
      → (steps : Steps ops fuel s' m' t k) → StartStays ops fuel steps
      → creations ops fuel steps ≤ fuel
      → creations ops fuel steps + 1 < 2 ^ 32
      → (ps : List Ptr) × WellFormed t ps
        × (length ps ≤ creations ops fuel steps)
        × (t.next_pid ≡ creations ops fuel steps + 1)
  reached-WellFormed fuel fresh idle kernel_directory s m {s'} empty unset nz run steps stays enough
        few =
      let (top, k, stacked) = initialize-stack fresh idle kernel_directory s m run in
      let (s₀, started, w₀, current, holds, unlocked, next₀, cpu) =
        initialize-WellFormed fresh idle kernel_directory s m empty unset nz stacked in
      let same : s₀ ≡ s' = ap (λ (p : Scheduler × M). p.0) (ok-inj (sym started ∙ run)) in
      let w : WellFormed s' [] = subst (λ u. WellFormed u []) same w₀ in
      let next : s'.next_pid ≡ 1 = ap (λ (u : Scheduler). u.next_pid) (sym same) ∙ next₀ in
      let (ps, w', short, given) =
        Steps-WellFormed ops fuel [] steps stays w (omega arith) (omega (arith, next)) in
      (ps, w', omega (arith, short), omega (arith, given, next))
