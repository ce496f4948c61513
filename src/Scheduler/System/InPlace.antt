-- ===== src/Scheduler/System/InPlace.antt =====
-- Ticks, messages and handles change processes of the queue in place, and keep the queue well formed.
use literate_os.Common.{
  ℕ, ◌-◌, ◌≡◌, refl, sym, subst, ap, ◌∙◌, inl, inr, Bool, true, false, Option, some, List, [], ◌∷◌,
  ◌++◌, ◌==◌, ltb, if◌then◌else◌, Bool-cases, arith, ◌⊎◌,
}
use literate_os.Common.Run.{ok, ok-inj, >>=-ok}
use literate_os.Scheduler.{
  Ptr, Message, Process, Scheduler, load, store, register_handle, find_process_by_pid,
  send_message_to, send_message,
}
use literate_os.Scheduler.Ring.{has, Seg}
use literate_os.Scheduler.Ring.Pids.{load-eq-ok}
use literate_os.Scheduler.Tick.{Here, resumed_eip, saved, switch_to, expire, tick}
use literate_os.Scheduler.System.{WellFormed}
use literate_os.Scheduler.System.Entry.{WellFormed-same, WellFormed-update}

-- The successor of a process of a segment is in it, or is its end.
Seg-next :
    (h : Ptr → Option Process) (p end a : Ptr) (x : Process) (ps : List Ptr)
    → Seg h p ps end
    → has a ps ≡ true
    → h a ≡ some x
    → (x.next ≡ end) ⊎ (has x.next ps ≡ true)
Seg-next h p end a x [] seg m at = absurd (cc m)
Seg-next h p end a x (q ∷ qs) (e, nz, z, at_z, rest) m at = elim (Bool-cases (a == q)) [
  | inl here ↦
      let a_p : a ≡ p = ground arith in
      let both : some x ≡ some z = sym at ∙ ap h a_p ∙ at_z in
      let next : x.next ≡ z.next = ground (arith, both) in
      head qs (subst (λ n. Seg h n qs end) (sym next) rest)
  | inr other ↦ elim (Seg-next h z.next end a x qs rest (ground arith) at) [
    | inl last ↦ inl last
    | inr inside ↦ inr (ground arith)
  ]
]
  where
    head : (qs : List Ptr) → Seg h x.next qs end → (x.next ≡ end) ⊎ (has x.next (q ∷ qs) ≡ true)
    head [] e = inl e
    head (r ∷ rs) (e, nz, y, at, others) = inr (ground arith)

next_runs :
    {s : Scheduler} {ps : List Ptr} {x : Process}
    → WellFormed s ps
    → s.procs s.current ≡ some x
    → has x.next (s.queue_start ∷ ps) ≡ true
next_runs {s} {ps} {x} w at =
    elim (Seg-next s.procs s.queue_start s.queue_start s.current x (s.queue_start ∷ ps)
      w.ring.closed w.runs at) [ inl last ↦ ground (arith, last) | inr inside ↦ inside ]

-- The queue is as it was, and no PID was given out.
abbrev Kept : Scheduler → List Ptr → Scheduler → Type 0
Kept s ps s' = WellFormed s' ps × (s'.next_pid ≡ s.next_pid)

if_true {ℓ} : {A : Type ℓ} (x y : A) {b : Bool} → b ≡ true → (if b then x else y) ≡ x
if_true x y e = rw e

if_false {ℓ} : {A : Type ℓ} (x y : A) {b : Bool} → b ≡ false → (if b then x else y) ≡ y
if_false x y e = rw e

expire-WellFormed :
    (here : Here) (s : Scheduler) (x : Process) (ps : List Ptr) {s' : Scheduler}
    → WellFormed s ps
    → s.procs s.current ≡ some x
    → expire here x s ≡ ok s'
    → Kept s ps s'
unfolding expire switch_to
expire-WellFormed here s x ps {s'} w at run = elim (Bool-cases (here.eip == resumed_eip)) [
  | inl resumed ↦ subst (Kept s ps) (ok-inj (rw resumed at run)) (
    WellFormed-update s.current x (record x { time_slice = x.time_slice_default }) w at refl refl
        refl refl refl w.runs,
    refl,
  )
  | inr fresh ↦
      let (y, at_y, rest) =
        >>=-ok
          {m = load
            (store s s.current (saved here (record x { time_slice = x.time_slice_default })))
            x.next}
          (rw fresh at run) in
      subst (Kept s ps) (ok-inj rest) (
        WellFormed-update s.current x (saved here (record x { time_slice = x.time_slice_default }))
            w at refl refl refl refl refl (next_runs w at),
        refl,
      )
]

pub tick-WellFormed :
    (here : Here) (s : Scheduler) (ps : List Ptr) {s' : Scheduler}
    → WellFormed s ps
    → tick here s ≡ ok s'
    → Kept s ps s'
unfolding tick
tick-WellFormed here s ps {s'} w run =
    let (x, found, rest) = >>=-ok {m = load s s.current} run in
    let at = (load-eq-ok s s.current found).1 in by_slice x at rest
  where
    by_slice :
        (x : Process)
        → s.procs s.current ≡ some x
        → (if ltb 0 x.time_slice
            then ok (store s s.current (record x { time_slice = x.time_slice - 1 }))
            else if s.locked
            then ok s
            else expire here x s)
          ≡ ok s'
        → Kept s ps s'
    by_slice x at rest = elim (Bool-cases (ltb 0 x.time_slice)) [
      | inl more ↦ subst (Kept s ps) (ok-inj (rw more at rest)) (
        WellFormed-update s.current x (record x { time_slice = x.time_slice - 1 }) w at refl refl
            refl refl refl w.runs,
        refl,
      )
      | inr over ↦ elim (Bool-cases s.locked) [
        | inl locked ↦
            subst (Kept s ps)
              (ok-inj (sym (if_true (ok s) (expire here x s) locked) ∙ rw over at rest)) (w, refl)
        | inr unlocked ↦
            expire-WellFormed here s x ps w at
              (sym (if_false (ok s) (expire here x s) unlocked) ∙ rw over at rest)
      ]
    ]

send_message_to-WellFormed :
    (p : Ptr) (msg : Message) (s : Scheduler) (ps : List Ptr) {code : ℕ} {s' : Scheduler}
    → WellFormed s ps
    → send_message_to p msg s ≡ ok (code, s')
    → Kept s ps s'
unfolding send_message_to
send_message_to-WellFormed p msg s ps w run =
    let (x, found, rest) = >>=-ok {m = load s p} run in
    subst (Kept s ps) (ap (λ (r : ℕ × Scheduler). r.1) (ok-inj rest)) (
      WellFormed-update p x (record x { message_queue = x.message_queue ++ msg ∷ [] }) w
          (load-eq-ok s p found).1 refl refl refl refl refl w.runs,
      refl,
    )

pub send_message-WellFormed :
    (fuel : ℕ) (msg : Message) (s : Scheduler) (ps : List Ptr) {code : ℕ} {s' : Scheduler}
    → WellFormed s ps
    → send_message fuel msg s ≡ ok (code, s')
    → Kept s ps s'
unfolding send_message
send_message-WellFormed fuel msg s ps {code} {s'} w run =
    let (p, found, rest) = >>=-ok {m = find_process_by_pid fuel s msg.receiver_pid} run in
    elim (Bool-cases (p == 0)) [
      | inl absent ↦
          subst (Kept s ps)
            (ap (λ (r : ℕ × Scheduler). r.1)
              (ok-inj (sym (if_true (ok (1, s)) (send_message_to p msg s) absent) ∙ rest)))
            (w, refl)
      | inr present ↦ send_message_to-WellFormed p msg s ps w (rw present at rest)
    ]

pub register_handle-WellFormed :
    (handle : Ptr) (s : Scheduler) (ps : List Ptr) {s' : Scheduler}
    → WellFormed s ps
    → register_handle handle s ≡ ok s'
    → Kept s ps s'
unfolding register_handle
register_handle-WellFormed handle s ps w run =
    let (x, found, rest) = >>=-ok {m = load s s.current} run in
    subst (Kept s ps) (ok-inj rest)
      (WellFormed-same w (record { pids = λ a. refl; next = refl }) refl w.ring w.runs, refl)
