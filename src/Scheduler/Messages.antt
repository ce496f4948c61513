-- ===== src/Scheduler/Messages.antt =====
-- Message passing: `SendMessage` and `ReceiveMessage`.
use literate_os.Common.{
  ℕ, ◌<◌, ◌≡◌, ◌≢◌, false, some, List, [], ◌∷◌, ◌++◌, ◌==◌, if◌then◌else◌, arith, length,
}
use literate_os.Common.Run.{ok, fault}
use literate_os.Scheduler.{
  Ptr, Message, Process, Scheduler, store, send_message_to, send_message, receive_message,
  null_message, remove_at,
}
use literate_os.Scheduler.Ring.{IsRing, load-ok, first_with_pid, find_process_by_pid_lem}

-- A message to the PID of a process in the queue goes to the end of the message queue of the first
-- such process, and to no other; the result is 0.
pub send_message-delivers :
    (fuel : ℕ) (msg : Message) (s : Scheduler) (ps : List Ptr) (p : Ptr) (x : Process)
    → IsRing s.procs s.queue_start ps
    → length ps < fuel
    → first_with_pid s.procs msg.receiver_pid (s.queue_start ∷ ps) ≡ p
    → p ≢ 0
    → s.procs p ≡ some x
    → (s' : Scheduler) × (send_message fuel msg s ≡ ok (0, s'))
      × (s'.procs p ≡ some (record x { message_queue = x.message_queue ++ msg ∷ [] }))
      × ((a : Ptr) → a ≢ p → s'.procs a ≡ s.procs a)
unfolding send_message send_message_to
send_message-delivers fuel msg s ps p x ring enough found nz at =
    let set : (p == 0) ≡ false = ground arith in
    (
      store s p (record x { message_queue = x.message_queue ++ msg ∷ [] }),
      rw (
        find_process_by_pid_lem fuel s msg.receiver_pid ps ring enough,
        found,
        set,
        load-ok s p x nz at,
      ),
      ground arith,
      λ a ne. ground arith,
    )

-- A message to a PID that no process in the queue has is refused with 1, and nothing changes.
pub send_message-refuses :
    (fuel : ℕ) (msg : Message) (s : Scheduler) (ps : List Ptr)
    → IsRing s.procs s.queue_start ps
    → length ps < fuel
    → first_with_pid s.procs msg.receiver_pid (s.queue_start ∷ ps) ≡ 0
    → send_message fuel msg s ≡ ok (1, s)
unfolding send_message
send_message-refuses fuel msg s ps ring enough absent =
    rw (find_process_by_pid_lem fuel s msg.receiver_pid ps ring enough, absent)

-- An empty message queue yields the null message. A message that was delivered cannot be fetched:
-- `List::remove_at` has no `return` in range.
pub receive_message_lem :
    (s : Scheduler) (p : Ptr) (x : Process)
    → p ≢ 0
    → s.procs p ≡ some x
    → receive_message p s ≡ (if length x.message_queue == 0 then ok null_message else fault)
unfolding receive_message remove_at
receive_message_lem s p x nz at = rw (load-ok s p x nz at) ground arith

-- `List::remove_at` of a position in the list.
pub remove_at-inside {ℓ} :
    {A : Type ℓ} (null : A) (xs : List A) (pos : ℕ)
    → pos < length xs
    → remove_at null xs pos ≡ fault
unfolding remove_at
remove_at-inside null xs pos inside = ground arith
