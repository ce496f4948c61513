-- ===== src/Scheduler/Tests.antt =====
-- Runs of the scheduler on three processes, and its theorems at them.
use literate_os.Common.{ℕ, ◌≡◌, refl, false, Option, none, some, [], ◌∷◌, arith}
use literate_os.Common.Run.{ok, write}
use literate_os.Scheduler.{
  Ptr, Message, Process, Cpu, Scheduler, load, store, find_process_by_pid, send_message,
  remove_process_from_queue,
}
use literate_os.Scheduler.Ring.{has, first_with_pid, IsRing, remove-IsRing}
use literate_os.Scheduler.Messages.{send_message-refuses}
use literate_os.Scheduler.Tick.{Here}
use literate_os.Scheduler.Lifecycle.{no_directory, new_process}

abbrev pub proc : (pid next slice : ℕ) → Process
proc pid next slice = record (new_process pid 0x1000 0x8000 no_directory slice 15 []) {
  next = next;
}

abbrev pub memory : Ptr → Option Process
memory =
    write (write (write (λ _. none) 16 (some (proc 1 32 2))) 32 (some (proc 2 48 0))) 48
      (some (proc 3 16 0))

abbrev pub idle_cpu : Cpu
idle_cpu = record { entry_point = 0; stack = 0; base = 0; page_directory = 0; switches = 0 }

abbrev pub three : Scheduler
three = record {
  procs = memory;
  queue_start = 16;
  current = 16;
  next_pid = 4;
  handles = [];
  locked = false;
  cpu = idle_cpu;
}

abbrev pub alone : Scheduler
alone = record three { procs = write (λ _. none) 16 (some (proc 1 16 0)) }

abbrev hello : ℕ → Message
hello pid = record { sender_pid = 1; receiver_pid = pid; id = 7; payload = 8; payload2 = 9 }

pub three-IsRing : IsRing memory 16 (32 ∷ 48 ∷ [])
three-IsRing = record {
  closed = (
    refl,
    omega arith,
    proc 1 32 2,
    refl,
    (refl, omega arith, proc 2 48 0, refl, (refl, omega arith, proc 3 16 0, refl, refl)),
  );
  distinct = (refl, (refl, (refl, tt)));
}

pub alone-IsRing : IsRing alone.procs 16 []
alone-IsRing = record {
  closed = (refl, omega arith, proc 1 16 0, refl, refl);
  distinct = (refl, tt);
}

find_third : find_process_by_pid 3 three 3 ≡ ok 48
unfolding find_process_by_pid load
find_third = refl

abbrev with_fourth : Scheduler
with_fourth = store three 64 (proc 4 0 0)

fourth-IsRing : IsRing with_fourth.procs 16 (32 ∷ 48 ∷ [])
fourth-IsRing = record {
  closed = (
    refl,
    omega arith,
    proc 1 32 2,
    refl,
    (refl, omega arith, proc 2 48 0, refl, (refl, omega arith, proc 3 16 0, refl, refl)),
  );
  distinct = (refl, (refl, (refl, tt)));
}

remove-IsRing_example :
    (s' : Scheduler) × (remove_process_from_queue 2 16 three ≡ ok s')
    × IsRing s'.procs 32 (48 ∷ [])
    × ((a : Ptr) → has a (32 ∷ 48 ∷ []) ≡ false → s'.procs a ≡ memory a)
    × (s'.queue_start ≡ 16)
    × (s'.current ≡ 16)
    × (s'.cpu ≡ idle_cpu)
remove-IsRing_example = remove-IsRing 2 three 16 32 (48 ∷ []) three-IsRing (omega arith)

second_found : first_with_pid memory 2 (16 ∷ 32 ∷ 48 ∷ []) ≡ 32
unfolding first_with_pid
second_found = refl

ninth_absent : first_with_pid memory 9 (16 ∷ 32 ∷ 48 ∷ []) ≡ 0
unfolding first_with_pid
ninth_absent = refl

send_message-refuses_example : send_message 3 (hello 9) three ≡ ok (1, three)
send_message-refuses_example =
    send_message-refuses 3 (hello 9) three (32 ∷ 48 ∷ []) three-IsRing (omega arith) ninth_absent

abbrev waiting : Process
waiting = record (proc 2 48 0) { message_queue = hello 2 ∷ [] }

abbrev here : Here
here = record { eip = 0x1234; esp = 0x7000; ebp = 0x7010 }
