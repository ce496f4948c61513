-- ===== src/Scheduler/System/Entry.antt =====
-- A process enters the queue, another leaves it, and the others change in place.
use literate_os.Common.{
  ℕ, ◌+◌, ◌≡◌, ◌≢◌, sym, subst, ap, ◌∙◌, inl, inr, true, false, Option, none, some, List, [], ◌∷◌,
  ◌==◌, Bool-cases, arith,
}
use literate_os.Common.Run.{ok, write, ok-inj}
use literate_os.Scheduler.{Ptr, Process, Scheduler, insert_process_into_queue}
use literate_os.Scheduler.Ring.{has, Seg, Seg-write, IsRing, insert-IsRing}
use literate_os.Scheduler.Ring.Cycle.{Seg-member}
use literate_os.Scheduler.Ring.Pids.{pid_of, pid_at, SamePids, store-SamePids, insert-SamePids}
use literate_os.Scheduler.System.{WellFormed}

-- The current process, and any process of the queue, is in memory.
pub member :
    {s : Scheduler} {ps : List Ptr} (w : WellFormed s ps) (a : Ptr)
    → has a (s.queue_start ∷ ps) ≡ true
    → (a ≢ 0) × (x : Process) × (s.procs a ≡ some x)
member {s} {ps} w a m =
    Seg-member s.procs s.queue_start s.queue_start a (s.queue_start ∷ ps) w.ring.closed m

-- A state with the same queue, PIDs and next PID.
pub WellFormed-same :
    {s s' : Scheduler} {ps : List Ptr}
    → WellFormed s ps
    → SamePids s s'
    → s'.queue_start ≡ s.queue_start
    → IsRing s'.procs s.queue_start ps
    → has s'.current (s.queue_start ∷ ps) ≡ true
    → WellFormed s' ps
WellFormed-same {s} {s'} {ps} w same start ring runs = record {
  ring = subst (λ q. IsRing s'.procs q ps) (sym start) ring;
  runs = subst (λ q. has s'.current (q ∷ ps) ≡ true) (sym start) runs;
  unique = λ a b n ma mb pa pb.
      w.unique a b n (subst (λ q. has a (q ∷ ps) ≡ true) start ma)
        (subst (λ q. has b (q ∷ ps) ≡ true) start mb) (sym (same.pids a) ∙ pa)
        (sym (same.pids b) ∙ pb);
  given = λ a n ma pa.
      let lt = w.given a n (subst (λ q. has a (q ∷ ps) ≡ true) start ma) (sym (same.pids a) ∙ pa) in
      omega (arith, same.next);
}

-- A process of the queue is replaced by one with the same `next`.
Seg-update :
    (h : Ptr → Option Process) (p end a : Ptr) (x y : Process) (ps : List Ptr)
    → Seg h p ps end
    → h a ≡ some x
    → y.next ≡ x.next
    → Seg (write h a (some y)) p ps end
Seg-update h p end a x y [] seg at same = seg
Seg-update h p end a x y (q ∷ qs) (e, nz, z, at_z, rest) at same = elim (Bool-cases (p == a)) [
  | inl here ↦
      let both : some z ≡ some x = sym at_z ∙ ap h (let e : p ≡ a = ground arith in e) ∙ at in
      let next : z.next ≡ y.next = ground (arith, both) in
      (
        e,
        nz,
        y,
        rw here,
        subst (λ n. Seg (write h a (some y)) n qs end) next
            (Seg-update h z.next end a x y qs rest at same),
      )
  | inr other ↦ (e, nz, z, rw other at_z, Seg-update h z.next end a x y qs rest at same)
]

pub IsRing-update :
    {h : Ptr → Option Process} {p : Ptr} {ps : List Ptr} (a : Ptr) (x y : Process)
    → IsRing h p ps
    → h a ≡ some x
    → y.next ≡ x.next
    → IsRing (write h a (some y)) p ps
IsRing-update {h} {p} {ps} a x y ring at same = record {
  closed = Seg-update h p p a x y (p ∷ ps) ring.closed at same;
  distinct = ring.distinct;
}

-- The process at `a` changes, and keeps its successor and its PID; `s'` may have another current process.
pub WellFormed-update :
    {s s' : Scheduler} {ps : List Ptr} (a : Ptr) (x y : Process)
    → WellFormed s ps
    → s.procs a ≡ some x
    → y.next ≡ x.next
    → y.pid ≡ x.pid
    → s'.procs ≡ write s.procs a (some y)
    → s'.queue_start ≡ s.queue_start
    → s'.next_pid ≡ s.next_pid
    → has s'.current (s.queue_start ∷ ps) ≡ true
    → WellFormed s' ps
WellFormed-update {s} {s'} {ps} a x y w at next pid procs start next_pid runs =
    let kept = store-SamePids s a y (ap pid_of at ∙ ap some (sym pid)) in
    WellFormed-same {s' = s'} w
      (record { pids = λ b. ap (λ h. pid_at h b) procs ∙ kept.pids b; next = next_pid }) start
      (subst (λ h. IsRing h s.queue_start ps) (sym procs) (IsRing-update a x y w.ring at next)) runs

-- A new process, whose PID is the next one, goes in behind the start of the queue.
pub WellFormed-insert :
    {s : Scheduler} (t : Scheduler) {s' : Scheduler} {ps : List Ptr} (fresh : Ptr) (x : Process)
    → WellFormed s ps
    → fresh ≢ 0
    → s.procs fresh ≡ none
    → x.pid ≡ s.next_pid
    → t.procs ≡ write s.procs fresh (some x)
    → t.queue_start ≡ s.queue_start
    → t.current ≡ s.current
    → t.next_pid ≡ s.next_pid + 1
    → insert_process_into_queue fresh t ≡ ok s'
    → WellFormed s' (fresh ∷ ps)
WellFormed-insert {s} t {s'} {ps} fresh x w nz free pid procs start current next_pid run =
    let out : has fresh (s.queue_start ∷ ps) ≡ false =
      elim (Bool-cases (has fresh (s.queue_start ∷ ps))) [
        | inl inside ↦ let (nz', y, at) = member w fresh inside in absurd (cc (sym free ∙ at))
        | inr outside ↦ outside
      ] in
    let closed : Seg t.procs s.queue_start (s.queue_start ∷ ps) s.queue_start =
      subst (λ h. Seg h s.queue_start (s.queue_start ∷ ps) s.queue_start) (sym procs)
        (Seg-write s.procs s.queue_start s.queue_start fresh (some x) (s.queue_start ∷ ps)
          w.ring.closed out) in
    let ring : IsRing t.procs t.queue_start ps =
      subst (λ q. IsRing t.procs q ps) (sym start)
        (record { closed = closed; distinct = w.ring.distinct }) in
    let at : t.procs fresh ≡ some x =
      ap (λ (h : Ptr → Option Process). h fresh) procs ∙ ground arith in
    let (s'', run', start', current', ring') =
      insert-IsRing t fresh ps x ring nz at (ap (λ q. has fresh (q ∷ ps)) start ∙ out) in
    let e : s'' ≡ s' = ok-inj (sym run' ∙ run) in
    let same = insert-SamePids fresh t run in
    let begins : s'.queue_start ≡ s.queue_start =
      sym (ap (λ (u : Scheduler). u.queue_start) e) ∙ start' ∙ start in
    let new : pid_at s'.procs fresh ≡ some s.next_pid =
      same.pids fresh ∙ ap pid_of at ∙ ap some pid in
    let old : (a : Ptr) → (a == fresh) ≡ false → pid_at s'.procs a ≡ pid_at s.procs a = λ a ne.
      same.pids a
      ∙ ap (λ h. pid_at h a) procs
      ∙ ap pid_of (let kept : write s.procs fresh (some x) a ≡ s.procs a = rw ne in kept) in
    let inside : (a : Ptr)
        → has a (s'.queue_start ∷ fresh ∷ ps) ≡ true
        → (a == fresh) ≡ false
        → has a (s.queue_start ∷ ps) ≡ true =
      λ a m ne. ground (arith, begins) in
    let newest : (a : Ptr) (n : ℕ)
        → (a == fresh) ≡ true
        → pid_at s'.procs a ≡ some n
        → n ≡ s.next_pid =
      λ a n here pa.
        let e_a : a ≡ fresh = ground arith in
        let both : some n ≡ some s.next_pid = sym pa ∙ ap (pid_at s'.procs) e_a ∙ new in
        ground (arith, both) in
    let running : s'.current ≡ s.current =
      sym (ap (λ (u : Scheduler). u.current) e) ∙ current' ∙ current in
    record {
      ring =
          subst (λ (u : Scheduler). IsRing u.procs u.queue_start (fresh ∷ ps)) e
            (subst (λ q. IsRing s''.procs q (fresh ∷ ps)) (sym start') ring');
      runs = ground (arith, begins, running, w.runs);
      unique = λ a b n ma mb pa pb. elim (Bool-cases (a == fresh)) [
        | inl a_new ↦ elim (Bool-cases (b == fresh)) [
          | inl b_new ↦ ground arith
          | inr b_old ↦
              let lt = w.given b n (inside b mb b_old) (sym (old b b_old) ∙ pb) in
              absurd (omega (arith, newest a n a_new pa))
        ]
        | inr a_old ↦ elim (Bool-cases (b == fresh)) [
          | inl b_new ↦
              let lt = w.given a n (inside a ma a_old) (sym (old a a_old) ∙ pa) in
              absurd (omega (arith, newest b n b_new pb))
          | inr b_old ↦
              w.unique a b n (inside a ma a_old) (inside b mb b_old) (sym (old a a_old) ∙ pa)
                (sym (old b b_old) ∙ pb)
        ]
      ];
      given = λ a n ma pa. elim (Bool-cases (a == fresh)) [
        | inl a_new ↦ omega (arith, newest a n a_new pa, same.next, next_pid)
        | inr a_old ↦
            let lt = w.given a n (inside a ma a_old) (sym (old a a_old) ∙ pa) in
            omega (arith, same.next, next_pid)
      ];
    }
