-- ===== src/Scheduler/Ring.antt =====
-- The ready queue as a ring of processes, and what the queue operations do to it.
pub mod Cycle
pub mod Pids
pub mod Round
use literate_os.Common.{
  ℕ, zero, suc, ◌<◌, ◌≤◌, ◌≡◌, refl, subst, ap, ◌∙◌, ◌≢◌, inl, inr, Bool, true, false, Option, none,
  some, List, [], ◌∷◌, ◌==◌, ◌||◌, if◌then◌else◌, Bool-cases, arith, length,
}
use literate_os.Common.Run.{ok, fault, write}
use literate_os.Scheduler.{
  Ptr, Process, Scheduler, load, store, find_from, find_process_by_pid, insert_process_into_queue,
  unlink_from, remove_process_from_queue,
}

-- `p` is among `ps`.
abbrev pub has : Ptr → List Ptr → Bool
has p [] = false
has p (q ∷ ps) = (p == q) || has p ps

abbrev pub Distinct : List Ptr → Type 0
Distinct [] = Unit {0}
Distinct (p ∷ ps) = (has p ps ≡ false) × Distinct ps

-- From `p` the `next` pointers lead through the processes at `ps` to `end`.
abbrev pub Seg : (Ptr → Option Process) → Ptr → List Ptr → Ptr → Type 0
Seg h p [] end = p ≡ end
Seg h p (q ∷ qs) end = (p ≡ q) × (p ≢ 0) × (x : Process) × (h p ≡ some x) × Seg h x.next qs end

-- The processes at `p` and `ps`, in this order, form a ring.
pub record IsRing (h : Ptr → Option Process) (p : Ptr) (ps : List Ptr) : Type 0 where
  pub closed : Seg h p (p ∷ ps) p
  pub distinct : Distinct (p ∷ ps)

-- The reference for the search: the first of the processes at `ps` that has the PID, or NULL.
unfoldable pub first_with_pid : (Ptr → Option Process) → ℕ → List Ptr → Ptr
first_with_pid h pid [] = 0
first_with_pid h pid (p ∷ ps) = elim (h p) [
  | none ↦ first_with_pid h pid ps
  | some x ↦ if pid == x.pid then p else first_with_pid h pid ps
]

pub load-ok : (s : Scheduler) (p : Ptr) (x : Process) → p ≢ 0 → s.procs p ≡ some x → load s p ≡ ok x
unfolding load
load-ok s p x nz at = let no_null : (p == 0) ≡ false = ground arith in rw (no_null, at)

pub first_with_pid-cons :
    (h : Ptr → Option Process) (pid : ℕ) (p : Ptr) (ps : List Ptr) (x : Process)
    → h p ≡ some x
    → first_with_pid h pid (p ∷ ps) ≡ (if pid == x.pid then p else first_with_pid h pid ps)
unfolding first_with_pid
first_with_pid-cons h pid p ps x at = ground (arith, at)

find_from_lem :
    (fuel : ℕ) (s : Scheduler) (pid : ℕ) (p : Ptr) (ps : List Ptr)
    → Seg s.procs p ps s.queue_start
    → has s.queue_start ps ≡ false
    → length ps < fuel
    → find_from fuel s pid p ≡ ok (first_with_pid s.procs pid ps)
unfolding find_from
find_from_lem zero s pid p ps seg out enough = absurd (omega arith)
find_from_lem (suc fuel) s pid p [] seg out enough = unfold first_with_pid in ground arith
find_from_lem (suc fuel) s pid p (q ∷ qs) (e, nz, x, at, rest) out enough =
    let at_q : s.procs q ≡ some x = subst (λ a. s.procs a ≡ some x) e at in
    let later = find_from_lem fuel s pid x.next qs rest (ground arith) (omega arith) in
    let not_start : (p == s.queue_start) ≡ false = ground arith in
    rw (not_start, load-ok s p x nz at, first_with_pid-cons s.procs pid q qs x at_q)
      (elim (Bool-cases (pid == x.pid)) [ inl hit ↦ rw hit (ap ok e) | inr miss ↦ rw miss later ])

-- On a ring that starts the queue, `FindProcessByPID` ends, and returns the first process that has
-- the PID, or NULL if no process has it.
pub find_process_by_pid_lem :
    (fuel : ℕ) (s : Scheduler) (pid : ℕ) (ps : List Ptr)
    → IsRing s.procs s.queue_start ps
    → length ps < fuel
    → find_process_by_pid fuel s pid ≡ ok (first_with_pid s.procs pid (s.queue_start ∷ ps))
unfolding find_process_by_pid
find_process_by_pid_lem fuel s pid ps ring enough =
    let (e, nz, x, at, rest) = ring.closed in
    rw (load-ok s s.queue_start x nz at, first_with_pid-cons s.procs pid s.queue_start ps x at)
      (elim (Bool-cases (pid == x.pid)) [
        | inl hit ↦ rw hit
        | inr miss ↦ rw miss (find_from_lem fuel s pid x.next ps rest ring.distinct.0 enough)
      ])

Seg-nonzero :
    (h : Ptr → Option Process) (p end : Ptr) (ps : List Ptr) → Seg h p ps end → end ≢ 0 → p ≢ 0
Seg-nonzero h p end [] e nz = ground arith
Seg-nonzero h p end (q ∷ qs) (e, nz, x, at, rest) end_nz = ground arith

-- A write outside a segment keeps it.
pub Seg-write :
    (h : Ptr → Option Process) (p end a : Ptr) (c : Option Process) (ps : List Ptr)
    → Seg h p ps end
    → has a ps ≡ false
    → Seg (write h a c) p ps end
Seg-write h p end a c [] seg out = seg
Seg-write h p end a c (q ∷ qs) (e, nz, x, at, rest) out =
    (e, nz, x, ground arith, Seg-write h x.next end a c qs rest (ground arith))

-- A process that is not in the ring goes in behind the start; the queue then starts as before.
pub insert-IsRing :
    (s : Scheduler) (p : Ptr) (ps : List Ptr) (x : Process)
    → IsRing s.procs s.queue_start ps
    → p ≢ 0
    → s.procs p ≡ some x
    → has p (s.queue_start ∷ ps) ≡ false
    → (s' : Scheduler) × (insert_process_into_queue p s ≡ ok s')
      × (s'.queue_start ≡ s.queue_start)
      × (s'.current ≡ s.current)
      × IsRing s'.procs s.queue_start (p ∷ ps)
unfolding insert_process_into_queue
insert-IsRing s p ps x ring nz at out =
    let (e, nz0, first, at0, rest) = ring.closed in
    let start_set : (s.queue_start == 0) ≡ false = ground arith in
    let next_set : (first.next == 0) ≡ false =
      ground (arith, Seg-nonzero s.procs first.next s.queue_start ps rest nz0) in
    let linked =
      store (store s p (record x { next = first.next })) s.queue_start
        (record first { next = p }) in
    (
      linked,
      rw (start_set, load-ok s s.queue_start first nz0 at0, load-ok s p x nz at, next_set),
      refl,
      refl,
      record {
        closed = (
          refl,
          nz0,
          record first { next = p },
          ground arith,
          (
            refl,
            nz,
            record x { next = first.next },
            ground arith,
            Seg-write _ first.next s.queue_start s.queue_start _ ps
                (Seg-write s.procs first.next s.queue_start p _ ps rest (ground arith))
                ring.distinct.0,
          ),
        );
        distinct = (ground (arith, ring.distinct), (ground arith, ring.distinct.1));
      },
    )

-- The walk of `RemoveProcessFromQueue` along the ring, from `q` to the process before `p`.
unlink_from_lem :
    (fuel : ℕ) (s : Scheduler) (p next_proc q : Ptr) (qs : List Ptr)
    → p ≢ 0
    → Seg s.procs q qs p
    → qs ≢ []
    → has p qs ≡ false
    → Distinct qs
    → length qs ≤ fuel
    → (s' : Scheduler) × (unlink_from fuel p next_proc q s ≡ ok s')
      × Seg s'.procs q qs next_proc
      × ((a : Ptr) → has a qs ≡ false → s'.procs a ≡ s.procs a)
      × (s'.queue_start ≡ s.queue_start)
      × (s'.current ≡ s.current)
      × (s'.cpu ≡ s.cpu)
unfolding unlink_from
unlink_from_lem fuel s p next_proc q [] nz seg some_left out distinct enough =
    absurd (some_left refl)
unlink_from_lem zero s p next_proc q (r ∷ qs) nz seg some_left out distinct enough =
    absurd (omega arith)
unlink_from_lem (suc fuel) s p next_proc q (r ∷ []) nz (e, nz_q, y, at, e') some_left out distinct
      enough =
    let next_set : (y.next == 0) ≡ false = ground arith in
    let other : (q == p) ≡ false = ground arith in
    let hit : (y.next == p) ≡ true = ground arith in
    (
      store s q (record y { next = next_proc }),
      rw (load-ok s q y nz_q at, next_set, other, hit),
      (e, nz_q, record y { next = next_proc }, ground arith, refl),
      λ a o. ground arith,
      refl,
      refl,
      refl,
    )
unlink_from_lem (suc fuel) s p next_proc q (r ∷ t ∷ qs) nz (e, nz_q, y, at, rest) some_left out
      distinct enough =
    let next_set : (y.next == 0) ≡ false = ground arith in
    let other : (q == p) ≡ false = ground arith in
    let miss : (y.next == p) ≡ false = ground arith in
    let (s', run, seg', same, start', current', cpu') =
      unlink_from_lem fuel s p next_proc y.next (t ∷ qs) nz rest (λ e. cc) (ground arith) distinct.1
        (omega arith) in
    (
      s',
      rw (load-ok s q y nz_q at, next_set, other, miss) run,
      (e, nz_q, y, same q (ground arith) ∙ at, seg'),
      λ a o. same a (ground arith),
      start',
      current',
      cpu',
    )

-- Removing a process from a ring of several leaves the ring of the others, in the same order. The
-- start of the queue and the current process stay, also where they are the process removed.
pub remove-IsRing :
    (fuel : ℕ) (s : Scheduler) (p q : Ptr) (qs : List Ptr)
    → IsRing s.procs p (q ∷ qs)
    → length qs < fuel
    → (s' : Scheduler) × (remove_process_from_queue fuel p s ≡ ok s')
      × IsRing s'.procs q qs
      × ((a : Ptr) → has a (q ∷ qs) ≡ false → s'.procs a ≡ s.procs a)
      × (s'.queue_start ≡ s.queue_start)
      × (s'.current ≡ s.current)
      × (s'.cpu ≡ s.cpu)
unfolding remove_process_from_queue
remove-IsRing fuel s p q qs ring enough =
    let (e, nz, x, at, rest) = ring.closed in
    let (s', run, seg', same, start', current', cpu') =
      unlink_from_lem fuel s p x.next x.next (q ∷ qs) nz rest (λ e. cc) ring.distinct.0
        ring.distinct.1 (omega arith) in
    let at_q : x.next ≡ q = rest.0 in
    (
      s',
      rw (load-ok s p x nz at) run,
      record {
        closed = subst (λ a. Seg s'.procs a (q ∷ qs) a) at_q seg';
        distinct = ring.distinct.1;
      },
      same,
      start',
      current',
      cpu',
    )

-- A process that is alone in its ring stays in it.
pub remove-alone :
    (fuel : ℕ) (s : Scheduler) (p : Ptr)
    → IsRing s.procs p []
    → remove_process_from_queue (suc fuel) p s ≡ ok s
unfolding remove_process_from_queue unlink_from
remove-alone fuel s p ring =
    let (e, nz, x, at, next) = ring.closed in
    let set : (p == 0) ≡ false = ground arith in
    let own : (p == p) ≡ true = ground arith in
    rw (load-ok s p x nz at, next, load-ok s p x nz at, next, set, own)

-- A read through a pointer to memory that was given back.
pub load-fault : (s : Scheduler) (p : Ptr) → s.procs p ≡ none → load s p ≡ fault
unfolding load
load-fault s p gone = ground (arith, gone)
