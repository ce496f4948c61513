-- ===== src/Syscall/Ipc/Laws.antt =====
-- Messages between processes through system calls.
use literate_os.Common.{
  ℕ, ◌<◌, ◌≡◌, refl, ◌≢◌, false, some, List, [], ◌∷◌, ◌++◌, ◌==◌, if◌then◌else◌, arith, length,
  Bool-cases, inl, inr,
}
use literate_os.Common.Run.{ok, fault}
use literate_os.Scheduler.{Ptr, Process, null_message}
use literate_os.Scheduler.Ring.{IsRing, load-ok, first_with_pid}
use literate_os.Scheduler.Messages.{send_message-delivers, receive_message_lem}
use literate_os.Syscall.{Regs, Kernel}
use literate_os.Syscall.Files.{write_word}
use literate_os.Syscall.Files.Laws.{Runs}
use literate_os.Syscall.Ipc.{message_of, write_message, sys_send_message, sys_receive_message}

-- A message that the running process sends to a PID in the queue: the call returns 0, and the message
-- that the receiver gets at the end of its queue carries the PID of the sender, whatever the registers
-- say. No other process is changed.
pub sys_send_message-delivers :
    (fuel : ℕ) (r : Regs) (k : Kernel) (ps : List Ptr) (p : Ptr) (x y : Process)
    → Runs k x
    → IsRing k.sched.procs k.sched.queue_start ps
    → length ps < fuel
    → first_with_pid k.sched.procs r.ebx (k.sched.queue_start ∷ ps) ≡ p
    → p ≢ 0
    → k.sched.procs p ≡ some y
    → (k' : Kernel) × (sys_send_message fuel r k ≡ ok (0, k'))
      × (k'.sched.procs p
          ≡ some (record y { message_queue = y.message_queue ++ message_of x r ∷ [] }))
      × ((a : Ptr) → a ≢ p → k'.sched.procs a ≡ k.sched.procs a)
      × ((a : ℕ) → k'.words a ≡ k.words a)
unfolding sys_send_message
sys_send_message-delivers fuel r k ps p x y runs ring enough found nz at =
    let (s', run, delivered, same) =
      send_message-delivers fuel (message_of x r) k.sched ps p y ring enough found nz at in
    (
      record k { sched = s' },
      rw (load-ok k.sched k.sched.current x runs.current_set runs.current_at, run),
      delivered,
      same,
      λ a. refl,
    )

-- A process with an empty queue gets the null message and the length 0. With a message waiting the
-- call is undefined, through `List::remove_at`.
pub sys_receive_message_lem :
    (r : Regs) (k : Kernel) (x : Process)
    → Runs k x
    → r.ebx ≢ 0
    → r.ecx ≢ 0
    → sys_receive_message r k ≡ (
        if length x.message_queue == 0
        then ok
            (0, record k { words = write_message (write_word k.words r.ecx 0) r.ebx null_message })
        else fault)
unfolding sys_receive_message
sys_receive_message_lem r k x runs to_set count_set =
    let a : (r.ebx == 0) ≡ false = ground arith in
    let b : (r.ecx == 0) ≡ false = ground arith in
    let s = k.sched in
    rw
      (
        a,
        b,
        load-ok s s.current x runs.current_set runs.current_at,
        receive_message_lem s s.current x runs.current_set runs.current_at,
      )
      (elim (Bool-cases (length x.message_queue == 0)) [
        | inl empty ↦
            let none_waiting : length x.message_queue ≡ 0 = ground arith in rw none_waiting
        | inr waiting ↦ rw waiting
      ])
