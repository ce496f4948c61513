-- ===== src/Scheduler/System/Rounds.antt =====
-- What the end of a process means for the queue as a round.
use literate_os.Common.{ℕ, ◌<◌, ◌≡◌, sym, ap, ◌∙◌, true, some, List, ◌∷◌, subst, length}
use literate_os.Common.Run.{ok}
use literate_os.Scheduler.{Ptr, Process, Scheduler}
use literate_os.Scheduler.Ring.{has, IsRing}
use literate_os.Scheduler.Ring.Round.{round, leave, leave-first, round-view}
use literate_os.Scheduler.Lifecycle.{MemoryOps, close_all, free_segments, end_process}
use literate_os.Scheduler.Lifecycle.Laws.{end_process-IsRing}

module _ {M : Type 0} (ops : MemoryOps M) where
  -- `EndProcess` of a process `p` takes it out of the round of the queue, and nothing else: the round, seen
  -- from the process that runs then, is the round before, seen from any process `r` of the queue, which `p` has
  -- left. The queue has another process, the walk has as much fuel as there are processes in it, and the files
  -- of `p` can be closed, the list of its descriptors cleared and its memory given back.
  pub end_process-leave :
      (fuel : ℕ) (s : Scheduler) (m : M) (p q r : Ptr) (qs rs : List Ptr) (x : Process)
      {m₀ m₁ m₂ : M}
      → IsRing s.procs p (q ∷ qs)
      → IsRing s.procs r rs
      → has p (r ∷ rs) ≡ true
      → length qs < fuel
      → s.procs p ≡ some x
      → close_all ops x.file_descriptors m ≡ ok m₀
      → ops.clear_list x.file_descriptors m₀ ≡ ok m₁
      → free_segments ops x.program_headers m₁ ≡ ok m₂
      → (s' : Scheduler) × (ts : List Ptr) × (end_process ops fuel p s m ≡ ok (s', m₂))
        × IsRing s'.procs s'.current ts
        × (round (s'.current ∷ ts) ≡ leave p (round (r ∷ rs)))
  end_process-leave fuel s m p q r qs rs x ring seen member enough at closed cleared freed =
      let (s', run, ring', gone, current, cpu, start) =
        end_process-IsRing ops fuel s m p q qs x ring enough at closed cleared freed in
      (
        s',
        qs,
        run,
        subst (λ a. IsRing s'.procs a qs) (sym current) ring',
        ap (λ a. round (a ∷ qs)) current
            ∙ sym (leave-first p q qs ring.distinct.0)
            ∙ ap (leave p) (sym (round-view seen ring member)),
      )
