-- ===== src/Scheduler/System/Leave.antt =====
-- A process that does not start the queue ends.
use literate_os.Common.{
  ℕ, ◌<◌, ◌≤◌, ◌≡◌, ◌≢◌, sym, subst, ap, ◌∙◌, inl, inr, true, false, none, some, List, [], ◌∷◌,
  ◌++◌, ◌==◌, Bool-cases, arith, length, length-append, append_nil,
}
use literate_os.Common.Run.{ok, write, ok-inj, >>=-ok}
use literate_os.Scheduler.{Ptr, Process, Scheduler, load, remove_process_from_queue}
use literate_os.Scheduler.Ring.{has, IsRing, remove-IsRing}
use literate_os.Scheduler.Ring.Cycle.{has-append, has-split, rotate-IsRing}
use literate_os.Scheduler.Ring.Pids.{pid_of, pid_at, remove-SamePids, load-eq-ok}
use literate_os.Scheduler.Tick.{switched, switch_to}
use literate_os.Scheduler.Lifecycle.{MemoryOps, close_all, free_segments, end_process}
use literate_os.Scheduler.Lifecycle.Laws.{end_process-IsRing}
use literate_os.Scheduler.System.{WellFormed}

module _ {M : Type 0} (ops : MemoryOps M) where
  -- The parts of a run of `EndProcess` that ended.
  record Ended (fuel : ℕ) (p : Ptr) (s : Scheduler) (m : M) (s' : Scheduler) (m' : M) : Type 0 where
    unlinked : Scheduler
    process : Process
    closed : M
    removed : remove_process_from_queue fuel p s ≡ ok unlinked
    at : unlinked.procs p ≡ some process
    closing : close_all ops process.file_descriptors m ≡ ok closed
    cleared : M
    clearing : ops.clear_list process.file_descriptors closed ≡ ok cleared
    freeing : free_segments ops process.program_headers cleared ≡ ok m'
    procs : s'.procs ≡ write unlinked.procs p none
    next_pid : s'.next_pid ≡ unlinked.next_pid

  end_process-Ended :
      (fuel : ℕ) (p : Ptr) (s : Scheduler) (m : M) {s' : Scheduler} {m' : M}
      → end_process ops fuel p s m ≡ ok (s', m')
      → Ended fuel p s m s' m'
  unfolding end_process switch_to
  end_process-Ended fuel p s m {s'} {m'} run =
      let (s₁, removed, r₁) = >>=-ok {m = remove_process_from_queue fuel p s} run in
      let (x, at, r₂) = >>=-ok {m = load s₁ p} r₁ in
      let (m₁, closing, r₃) = >>=-ok {m = close_all ops x.file_descriptors m} r₂ in
      let (m₀, clearing, r₀) = >>=-ok {m = ops.clear_list x.file_descriptors m₁} r₃ in
      let (m₂, freeing, r₄) = >>=-ok {m = free_segments ops x.program_headers m₀} r₀ in
      let gone : Scheduler = record s₁ { procs = write s₁.procs p none } in
      let (s₂, switch, r₅) = >>=-ok {m = switch_to x.next gone} r₄ in
      let (y, at_y, r₆) = >>=-ok {m = load gone x.next} switch in
      let last : (s₂, m₂) ≡ (s', m') = ok-inj r₅ in
      let to : record gone { current = x.next; cpu = switched y gone.cpu } ≡ s' =
        ok-inj r₆ ∙ ap (λ (t : Scheduler × M). t.0) last in
      record {
        unlinked = s₁;
        process = x;
        closed = m₁;
        removed = removed;
        at = (load-eq-ok s₁ p at).1;
        closing = closing;
        cleared = m₀;
        clearing = clearing;
        freeing = freeing ∙ ap (λ (t : Scheduler × M). ok t.1) last;
        procs = sym (ap (λ (u : Scheduler). u.procs) to);
        next_pid = sym (ap (λ (u : Scheduler). u.next_pid) to);
      }

  pub exit-next_pid :
      (fuel : ℕ) (p : Ptr) (s : Scheduler) (m : M) {s' : Scheduler} {m' : M}
      → end_process ops fuel p s m ≡ ok (s', m')
      → s'.next_pid ≡ s.next_pid
  exit-next_pid fuel p s m run =
      let parts = end_process-Ended fuel p s m run in
      parts.next_pid ∙ (remove-SamePids fuel p s parts.removed).next

  -- `EndProcess` of one process of several, by what it returned.
  left-IsRing :
      (fuel : ℕ) (p q : Ptr) (s : Scheduler) (m : M) (qs : List Ptr) {s' : Scheduler} {m' : M}
      → IsRing s.procs p (q ∷ qs)
      → length qs < fuel
      → end_process ops fuel p s m ≡ ok (s', m')
      → IsRing s'.procs q qs × (s'.current ≡ q) × (s'.queue_start ≡ s.queue_start)
  left-IsRing fuel p q s m qs {s'} {m'} ring enough run =
      let parts = end_process-Ended fuel p s m run in
      let (s₁, removed, ring₁, same, start₁, current₁, cpu₁) =
        remove-IsRing fuel s p q qs ring enough in
      let unlinked : s₁ ≡ parts.unlinked = ok-inj (sym removed ∙ parts.removed) in
      let at : s.procs p ≡ some parts.process =
        sym (same p ring.distinct.0) ∙ ap (λ (u : Scheduler). u.procs p) unlinked ∙ parts.at in
      let (s₂, run', ring', gone, current, cpu, start) =
        end_process-IsRing ops fuel s m p q qs parts.process ring enough at parts.closing
          parts.clearing parts.freeing in
      let e : s₂ ≡ s' = ap (λ (t : Scheduler × M). t.0) (ok-inj (sym run' ∙ run)) in
      (
        subst (λ (u : Scheduler). IsRing u.procs q qs) e ring',
        sym (ap (λ (u : Scheduler). u.current) e) ∙ current,
        sym (ap (λ (u : Scheduler). u.queue_start) e) ∙ start,
      )

  -- Around `p` the queue is closed again, from `start` on.
  leave-IsRing :
      (fuel : ℕ) (p start : Ptr) (s : Scheduler) (m : M) (before after : List Ptr) {s' : Scheduler}
      {m' : M}
      → IsRing s.procs p (after ++ start ∷ before)
      → length (after ++ start ∷ before) ≤ fuel
      → end_process ops fuel p s m ≡ ok (s', m')
      → IsRing s'.procs start (before ++ after)
        × (has s'.current (start ∷ before ++ after) ≡ true)
        × (s'.queue_start ≡ s.queue_start)
  leave-IsRing fuel p start s m before [] {s'} ring enough run =
      let (ring', current, same) = left-IsRing fuel p start s m before ring (omega arith) run in
      (
        subst (λ ps. IsRing s'.procs start ps) (sym (append_nil before)) ring',
        ground (arith, current),
        same,
      )
  leave-IsRing fuel p start s m before (a ∷ qs) {s'} ring enough run =
      let (ring', current, same) =
        left-IsRing fuel p a s m (qs ++ start ∷ before) ring (omega arith) run in
      (
        rotate-IsRing s'.procs a start qs before ring',
        ground (arith, current, has-append s'.current before (a ∷ qs)),
        same,
      )

  WellFormed-leave :
      (fuel : ℕ) (p : Ptr) (s : Scheduler) (m : M) (before after : List Ptr) {s' : Scheduler}
      {m' : M}
      → WellFormed s (before ++ p ∷ after)
      → length (before ++ p ∷ after) ≤ fuel
      → end_process ops fuel p s m ≡ ok (s', m')
      → WellFormed s' (before ++ after)
  WellFormed-leave fuel p s m before after {s'} w enough run =
      let turned = rotate-IsRing s.procs s.queue_start p before after w.ring in
      let count : length (after ++ s.queue_start ∷ before) ≡ length (before ++ p ∷ after) = omega (
        arith,
        length-append {0} after (s.queue_start ∷ before),
        length-append {0} before (p ∷ after),
      ) in
      let (ring', runs, start) =
        leave-IsRing fuel p s.queue_start s m before after turned (omega (arith, count)) run in
      let parts = end_process-Ended fuel p s m run in
      let kept = remove-SamePids fuel p s parts.removed in
      let out : has p (after ++ s.queue_start ∷ before) ≡ false = turned.distinct.0 in
      let stays : (a : Ptr) → has a (s.queue_start ∷ before ++ after) ≡ true → (a == p) ≡ false =
        λ a h. elim (Bool-cases (a == p)) [
          | inl same ↦
              let e : a ≡ p = ground arith in
              let h' : has p (s.queue_start ∷ before ++ after) ≡ true =
                subst (λ b. has b (s.queue_start ∷ before ++ after) ≡ true) e h in
              absurd (
                ground
                  (arith, has-append p before after, has-append p after (s.queue_start ∷ before)))
          | inr different ↦ different
        ] in
      let inside : (a : Ptr)
          → has a (s'.queue_start ∷ before ++ after) ≡ true
          → ((a == p) ≡ false) × (has a (s.queue_start ∷ before ++ p ∷ after) ≡ true) =
        λ a h.
          let h' : has a (s.queue_start ∷ before ++ after) ≡ true =
            subst (λ q. has a (q ∷ before ++ after) ≡ true) start h in
          (
            stays a h',
            ground (arith, has-append a before after, has-append a before (p ∷ after)),
          ) in
      let pids : (a : Ptr) → (a == p) ≡ false → pid_at s'.procs a ≡ pid_at s.procs a = λ a ne.
        let there : write parts.unlinked.procs p none a ≡ parts.unlinked.procs a = rw ne in
        ap (λ h. pid_at h a) parts.procs ∙ ap pid_of there ∙ kept.pids a in
      record {
        ring = subst (λ q. IsRing s'.procs q (before ++ after)) (sym start) ring';
        runs = subst (λ q. has s'.current (q ∷ before ++ after) ≡ true) (sym start) runs;
        unique = λ a b n ma mb pa pb.
            let (na, ia) = inside a ma in
            let (nb, ib) = inside b mb in
            w.unique a b n ia ib (sym (pids a na) ∙ pa) (sym (pids b nb) ∙ pb);
        given = λ a n ma pa.
            let (na, ia) = inside a ma in
            let lt = w.given a n ia (sym (pids a na) ∙ pa) in
            omega (arith, parts.next_pid, kept.next);
      }

  -- A process in the queue, other than the one that starts it, ends.
  pub WellFormed-exit :
      (fuel : ℕ) (p : Ptr) (s : Scheduler) (m : M) (ps : List Ptr) {s' : Scheduler} {m' : M}
      → WellFormed s ps
      → p ≢ s.queue_start
      → has p (s.queue_start ∷ ps) ≡ true
      → length ps ≤ fuel
      → end_process ops fuel p s m ≡ ok (s', m')
      → (ps' : List Ptr) × WellFormed s' ps' × (length ps' ≤ length ps)
  WellFormed-exit fuel p s m ps {s'} w other inside enough run =
      let in_ps : has p ps ≡ true = ground arith in
      let (before, after, e) = has-split p ps in_ps in leave before after e
    where
      leave :
          (before after : List Ptr)
          → ps ≡ before ++ p ∷ after
          → (ps' : List Ptr) × WellFormed s' ps' × (length ps' ≤ length ps)
      leave before after e = (
        before ++ after,
        WellFormed-leave fuel p s m before after (subst (WellFormed s) e w)
            (subst (λ qs. length qs ≤ fuel) e enough) run,
        omega (
          arith,
          ap (λ (qs : List Ptr). length qs) e,
          length-append {0} before after,
          length-append {0} before (p ∷ after),
        ),
      )
