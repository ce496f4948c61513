-- ===== src/Scheduler/Ring/Pids.antt =====
-- The PIDs of processes, which the queue operations leave alone.
use literate_os.Common.{
  ℕ, zero, suc, ◌≡◌, refl, sym, subst, ap, ◌∙◌, ◌≢◌, inl, inr, true, false, Option, none, some,
  ◌==◌, ◌||◌, if◌then◌else◌, Bool-cases, arith,
}
use literate_os.Common.Run.{ok, ok-inj, >>=-ok, write}
use literate_os.Scheduler.{
  Ptr, Process, Scheduler, load, store, insert_process_into_queue, unlink_from,
  remove_process_from_queue,
}

-- The PID of the process at an address, if there is one.
abbrev pub pid_of : Option Process → Option ℕ
pid_of none = none
pid_of (some x) = some x.pid

abbrev pub pid_at : (Ptr → Option Process) → Ptr → Option ℕ
pid_at h p = pid_of (h p)

-- What an operation on the queue leaves as it was.
pub record SamePids (s s' : Scheduler) : Type 0 where
  pub pids : (a : Ptr) → pid_at s'.procs a ≡ pid_at s.procs a
  pub next : s'.next_pid ≡ s.next_pid

pub SamePids-refl : (s : Scheduler) → SamePids s s
SamePids-refl s = record { pids = λ a. refl; next = refl }

pub load-eq-ok :
    (s : Scheduler) (p : Ptr) {x : Process} → load s p ≡ ok x → (p ≢ 0) × (s.procs p ≡ some x)
unfolding load
load-eq-ok s p e = (ground (arith, e), ground (arith, e))

pid_at-write :
    (h : Ptr → Option Process) (p a : Ptr) (y : Process)
    → pid_at h p ≡ some y.pid
    → pid_at (write h p (some y)) a ≡ pid_at h a
pid_at-write h p a y same = elim (Bool-cases (a == p)) [
  | inl here ↦
      let new : write h p (some y) a ≡ some y = rw here in
      let e : a ≡ p = ground arith in ap pid_of new ∙ sym same ∙ ap (pid_at h) (sym e)
  | inr there ↦ let kept : write h p (some y) a ≡ h a = rw there in ap pid_of kept
]

-- A write of a process with the PID of the one that stands there.
pub store-SamePids :
    (s : Scheduler) (p : Ptr) (y : Process)
    → pid_at s.procs p ≡ some y.pid
    → SamePids s (store s p y)
store-SamePids s p y same = record { pids = λ a. pid_at-write s.procs p a y same; next = refl }

pub SamePids-trans : {s t u : Scheduler} → SamePids s t → SamePids t u → SamePids s u
SamePids-trans l r = record { pids = λ a. r.pids a ∙ l.pids a; next = r.next ∙ l.next }

unlink_from-SamePids :
    (fuel : ℕ) (p next_proc q : Ptr) (s : Scheduler) {s' : Scheduler}
    → unlink_from fuel p next_proc q s ≡ ok s'
    → SamePids s s'
unfolding unlink_from
unlink_from-SamePids zero p next_proc q s run = absurd (cc run)
unlink_from-SamePids (suc fuel) p next_proc q s {s'} run =
    let (y, at, rest) = >>=-ok {m = load s q} run in
    let (nz, here) = load-eq-ok s q at in
    elim (Bool-cases (y.next == 0 || q == p)) [
      | inl done ↦ subst (SamePids s) (ok-inj (rw done at rest)) (SamePids-refl s)
      | inr go ↦ elim (Bool-cases (y.next == p)) [
        | inl hit ↦
            subst (SamePids s) (ok-inj (rw (go, hit) at rest))
              (store-SamePids s q (record y { next = next_proc }) (ap pid_of here))
        | inr miss ↦ unlink_from-SamePids fuel p next_proc y.next s (rw (go, miss) at rest)
      ]
    ]

pub remove-SamePids :
    (fuel : ℕ) (p : Ptr) (s : Scheduler) {s' : Scheduler}
    → remove_process_from_queue fuel p s ≡ ok s'
    → SamePids s s'
unfolding remove_process_from_queue
remove-SamePids fuel p s run =
    let (x, at, rest) = >>=-ok {m = load s p} run in
    unlink_from-SamePids fuel p x.next x.next s rest

-- The two processes that an insertion links.
linked-SamePids :
    (s : Scheduler) (p : Ptr) (first x : Process)
    → pid_at s.procs s.queue_start ≡ some first.pid
    → pid_at s.procs p ≡ some x.pid
    → SamePids s (
        if first.next == 0
        then store
            (store s s.queue_start (record first { next = p }))
            p
            (record x { next = s.queue_start })
        else store
            (store s p (record x { next = first.next }))
            s.queue_start
            (record first { next = p }))
linked-SamePids s p first x pid₀ pid =
    elim (first.next == 0)
      as (λ b. SamePids s (
        if b
        then store (store s s.queue_start (record first { next = p })) p
            (record x { next = s.queue_start })
        else store (store s p (record x { next = first.next })) s.queue_start
            (record first { next = p }))) [
              | true ↦
                  let one = store-SamePids s s.queue_start (record first { next = p }) pid₀ in
                  SamePids-trans one (
                    store-SamePids (store s s.queue_start (record first { next = p })) p
                      (record x { next = s.queue_start }) (one.pids p ∙ pid))
              | false ↦
                  let one = store-SamePids s p (record x { next = first.next }) pid in
                  SamePids-trans one (
                    store-SamePids (store s p (record x { next = first.next })) s.queue_start
                      (record first { next = p }) (one.pids s.queue_start ∙ pid₀))
            ]

pub insert-SamePids :
    (p : Ptr) (s : Scheduler) {s' : Scheduler}
    → insert_process_into_queue p s ≡ ok s'
    → SamePids s s'
unfolding insert_process_into_queue
insert-SamePids p s {s'} run = elim (Bool-cases (s.queue_start == 0)) [
  | inl empty ↦
      let (x, at, rest) = >>=-ok {m = load s p} (rw empty at run) in
      let kept = store-SamePids s p (record x { next = p }) (ap pid_of (load-eq-ok s p at).1) in
      subst (SamePids s) (ok-inj rest) (record { pids = kept.pids; next = refl })
  | inr started ↦
      let (first, at₀, rest₀) = >>=-ok {m = load s s.queue_start} (rw started at run) in
      let (x, at, rest) = >>=-ok {m = load s p} rest₀ in
      subst (SamePids s) (ok-inj rest) (
        linked-SamePids s p first x (ap pid_of (load-eq-ok s s.queue_start at₀).1)
          (ap pid_of (load-eq-ok s p at).1))
]
