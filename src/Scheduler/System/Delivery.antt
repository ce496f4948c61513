-- ===== src/Scheduler/System/Delivery.antt =====
-- In a well-formed queue a PID names one process, and messages go there.
use literate_os.Common.{
  ℕ, ◌<◌, ◌≡◌, ◌≢◌, sym, ap, ◌∙◌, inl, inr, true, false, Option, some, List, [], ◌∷◌, ◌++◌, ◌==◌,
  Bool-cases, arith, length,
}
use literate_os.Common.Run.{ok}
use literate_os.Scheduler.{Ptr, Message, Process, Scheduler, send_message}
use literate_os.Scheduler.Ring.{has, Seg, first_with_pid, first_with_pid-cons}
use literate_os.Scheduler.Ring.Pids.{pid_of, pid_at}
use literate_os.Scheduler.Messages.{send_message-delivers}
use literate_os.Scheduler.System.{WellFormed}
use literate_os.Scheduler.System.Entry.{member}

first_with_pid_unique :
    (h : Ptr → Option Process) (pid : ℕ) (p end q : Ptr) (ps : List Ptr)
    → Seg h p ps end
    → has q ps ≡ true
    → pid_at h q ≡ some pid
    → ((b : Ptr) → has b ps ≡ true → pid_at h b ≡ some pid → b ≡ q)
    → first_with_pid h pid ps ≡ q
first_with_pid_unique h pid p end q [] seg m at only = absurd (cc m)
first_with_pid_unique h pid p end q (r ∷ rs) (e, nz, x, at_p, rest) m at only =
    let at_r : h r ≡ some x = ap h (sym e) ∙ at_p in
    first_with_pid-cons h pid r rs x at_r ∙ elim (Bool-cases (pid == x.pid)) [
      | inl hit ↦
          let named : x.pid ≡ pid = ground arith in
          let self : has r (r ∷ rs) ≡ true = ground arith in
          rw hit (only r self (ap pid_of at_r ∙ ap some named))
      | inr miss ↦
          let other : (q == r) ≡ false = elim (Bool-cases (q == r)) [
            | inl same ↦
                let q_r : q ≡ r = ground arith in
                let both : some pid ≡ some x.pid = sym at ∙ ap (pid_at h) q_r ∙ ap pid_of at_r in
                absurd (ground (arith, both))
            | inr different ↦ different
          ] in
          let later : has q rs ≡ true = ground arith in
          rw miss (
            first_with_pid_unique h pid x.next end q rs rest later at
              λ b mb pb. only b (ground arith) pb)
    ]

-- A message to the PID of a process of the queue goes to the end of the messages of that process:
-- the call returns 0, and no other process changes.
pub send_message-reaches :
    (fuel : ℕ) (s : Scheduler) (ps : List Ptr) (p : Ptr) (x : Process) (msg : Message)
    → WellFormed s ps
    → length ps < fuel
    → has p (s.queue_start ∷ ps) ≡ true
    → s.procs p ≡ some x
    → msg.receiver_pid ≡ x.pid
    → (s' : Scheduler) × (send_message fuel msg s ≡ ok (0, s'))
      × (s'.procs p ≡ some (record x { message_queue = x.message_queue ++ msg ∷ [] }))
      × ((a : Ptr) → a ≢ p → s'.procs a ≡ s.procs a)
send_message-reaches fuel s ps p x msg w enough inside at named =
    let (nz, y, at_y) = member w p inside in
    let pid : pid_at s.procs p ≡ some msg.receiver_pid = ap pid_of at ∙ ap some (sym named) in
    send_message-delivers fuel msg s ps p x w.ring enough
      (first_with_pid_unique s.procs msg.receiver_pid s.queue_start s.queue_start p
        (s.queue_start ∷ ps) w.ring.closed inside pid
        λ b mb pb. w.unique b p msg.receiver_pid mb inside pb pid)
      nz at
