-- ===== src/Scheduler/Lifecycle/Laws.antt =====
-- What creating and ending a process does to the ready queue.
use literate_os.Common.{
  ℕ, zero, suc, ◌<◌, ◌≡◌, refl, sym, ap, ◌∙◌, ◌≢◌, true, false, none, some, List, [], ◌∷◌, arith,
  length,
}
use literate_os.Common.Bits.{u32, add32}
use literate_os.Common.Run.{ok, fault, write}
use literate_os.Scheduler.{Ptr, Process, Scheduler, store, find_process_by_pid}
use literate_os.Scheduler.Ring.{
  has, Seg-write, IsRing, load-ok, insert-IsRing, remove-IsRing, remove-alone, load-fault,
}
use literate_os.Scheduler.Tick.{switched, switch_to}
use literate_os.Scheduler.Lifecycle.{
  MemoryOps, no_directory, new_process, allocate_stack, create_process, close_all, free_segments,
  end_process,
}

module _ {M : Type 0} (ops : MemoryOps M) where
  -- With a stack at hand, `CreateProcess` returns the next PID, puts the new process behind the start
  -- of the queue, runs no other process and leaves the scheduler lock as it was.
  pub create_process-IsRing :
      (fresh entry : ℕ) (s : Scheduler) (m : M) (ps : List Ptr) {top : ℕ} {m' : M}
      → IsRing s.procs s.queue_start ps
      → fresh ≢ 0
      → has fresh (s.queue_start ∷ ps) ≡ false
      → allocate_stack ops m ≡ ok (top, m')
      → (s' : Scheduler) × (create_process ops fresh entry s m ≡ ok (s.next_pid, s', m'))
        × IsRing s'.procs s.queue_start (fresh ∷ ps)
        × (s'.queue_start ≡ s.queue_start)
        × (s'.current ≡ s.current)
        × (s'.locked ≡ s.locked)
  unfolding create_process
  create_process-IsRing fresh entry s m ps {top} {m'} ring nz out stacked =
      let x = new_process s.next_pid (u32 entry) top no_directory 1 1 [] in
      let s₁ = store (record s { locked = true; next_pid = add32 s.next_pid 1 }) fresh x in
      let ring₁ : IsRing s₁.procs s.queue_start ps = record {
        closed =
            Seg-write s.procs s.queue_start s.queue_start fresh (some x) (s.queue_start ∷ ps)
              ring.closed out;
        distinct = ring.distinct;
      } in
      let (s₂, run, start, current, ring₂) =
        insert-IsRing s₁ fresh ps x ring₁ nz (ground arith) out in
      (record s₂ { locked = s.locked }, rw (stacked, run), ring₂, start, current, refl)

  -- Ending one process of several: the next one in the ring becomes current and is what the
  -- processor switches to, the memory of the process is given back, and the others stay in the ring.
  pub end_process-IsRing :
      (fuel : ℕ) (s : Scheduler) (m : M) (p q : Ptr) (qs : List Ptr) (x : Process) {m₀ m₁ m₂ : M}
      → IsRing s.procs p (q ∷ qs)
      → length qs < fuel
      → s.procs p ≡ some x
      → close_all ops x.file_descriptors m ≡ ok m₀
      → ops.clear_list x.file_descriptors m₀ ≡ ok m₁
      → free_segments ops x.program_headers m₁ ≡ ok m₂
      → (s' : Scheduler) × (end_process ops fuel p s m ≡ ok (s', m₂))
        × IsRing s'.procs q qs
        × (s'.procs p ≡ none)
        × (s'.current ≡ q)
        × ((y : Process) × (s'.procs q ≡ some y) × (s'.cpu ≡ switched y s.cpu))
        × (s'.queue_start ≡ s.queue_start)
  unfolding end_process switch_to
  end_process-IsRing fuel s m p q qs x ring enough at closed cleared freed =
      let (e, nz, x₀, at₀, rest) = ring.closed in
      let same_x : some x₀ ≡ some x = sym at₀ ∙ at in
      let next : x.next ≡ q = ground (arith, same_x, rest.0) in
      let (s₁, run, ring', same, start, current, cpu) = remove-IsRing fuel s p q qs ring enough in
      let (e', nz_q, y, at_q, rest') = ring'.closed in
      let at_p : s₁.procs p ≡ some x = same p ring.distinct.0 ∙ at in
      let other : q ≢ p = ground (arith, ring.distinct.0) in
      let gone = record s₁ { procs = write s₁.procs p none } in
      let at_gone : gone.procs q ≡ some y = ground arith in
      (
        record gone { current = q; cpu = switched y s₁.cpu },
        rw (
          run,
          load-ok s₁ p x nz at_p,
          closed,
          cleared,
          freed,
          next,
          load-ok gone q y nz_q at_gone,
        ),
        record {
          closed = Seg-write s₁.procs q q p none (q ∷ qs) ring'.closed ring.distinct.0;
          distinct = ring'.distinct;
        },
        ground arith,
        refl,
        (y, at_gone, ap (switched y) cpu),
        start,
      )

  -- Ending the only process in the queue is a use after free: the process stays its own successor,
  -- and `EndProcess` reads its registers after `kfree`.
  pub end_process-alone :
      (fuel : ℕ) (s : Scheduler) (m : M) (p : Ptr) (x : Process) {m₀ m₁ m₂ : M}
      → IsRing s.procs p []
      → 0 < fuel
      → s.procs p ≡ some x
      → close_all ops x.file_descriptors m ≡ ok m₀
      → ops.clear_list x.file_descriptors m₀ ≡ ok m₁
      → free_segments ops x.program_headers m₁ ≡ ok m₂
      → end_process ops fuel p s m ≡ fault
  unfolding end_process switch_to
  end_process-alone zero s m p x ring pos at closed cleared freed = absurd (omega arith)
  end_process-alone (suc fuel) s m p x ring pos at closed cleared freed =
      let (e, nz, x₀, at₀, rest) = ring.closed in
      let same_x : some x₀ ≡ some x = sym at₀ ∙ at in
      let next : x.next ≡ p = ground (arith, same_x, rest) in
      let gone = record s { procs = write s.procs p none } in
      rw (
        remove-alone fuel s p ring,
        load-ok s p x nz at,
        closed,
        cleared,
        freed,
        next,
        load-fault gone p (ground arith),
      )

  -- After the end of the process that starts a queue of at least two, whose files can be closed, the list of
  -- whose descriptors can be cleared and whose memory can be given back, the queue still starts at it, so that the
  -- next search for a PID reads freed memory.
  pub find_process_by_pid-end_process :
      (fuel search_fuel pid : ℕ) (s : Scheduler) (m : M) (q : Ptr) (qs : List Ptr) (x : Process)
      {m₀ m₁ m₂ : M}
      → IsRing s.procs s.queue_start (q ∷ qs)
      → length qs < fuel
      → s.procs s.queue_start ≡ some x
      → close_all ops x.file_descriptors m ≡ ok m₀
      → ops.clear_list x.file_descriptors m₀ ≡ ok m₁
      → free_segments ops x.program_headers m₁ ≡ ok m₂
      → (s' : Scheduler) × (end_process ops fuel s.queue_start s m ≡ ok (s', m₂))
        × (find_process_by_pid search_fuel s' pid ≡ fault)
  unfolding find_process_by_pid
  find_process_by_pid-end_process fuel search_fuel pid s m q qs x ring enough at closed cleared
        freed =
      let (s', run, ring', gone, current, cpu, start) =
        end_process-IsRing fuel s m s.queue_start q qs x ring enough at closed cleared freed in
      (s', run, rw (load-fault s' s'.queue_start (ap s'.procs start ∙ gone)))
