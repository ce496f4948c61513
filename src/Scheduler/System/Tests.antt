-- ===== src/Scheduler/System/Tests.antt =====
-- The system from a queue of three.
use literate_os.Common.{◌+◌}
use literate_os.Common.{
  ℕ, ◌≤◌, ◌≡◌, ◌≢◌, refl, false, true, none, some, List, [], ◌∷◌, arith, length,
}
use literate_os.Common.Run.{Run, ok, write}
use literate_os.Scheduler.{
  Ptr, Message, Process, Scheduler, insert_process_into_queue, load, store, send_message,
}
use literate_os.Scheduler.Ring.{IsRing}
use literate_os.Scheduler.Tick.{Here, switched, saved, tick, ticks, ticks-switch}
use literate_os.Scheduler.Tests.{proc, memory, idle_cpu, three, three-IsRing}
use literate_os.Scheduler.Lifecycle.{create_process, end_process, new_process, no_directory}
use literate_os.Scheduler.Lifecycle.Laws.{create_process-IsRing}
use literate_os.Scheduler.Lifecycle.Tests.{
  counting, stacked, second-IsRing, nothing_to_close, nothing_to_free,
}
use literate_os.Scheduler.Ring.Round.{round, leave}
use literate_os.Memory.Paging.{Paging, initialize_virtual_memory}
use literate_os.Memory.Spaces.{Spaces}
use literate_os.Memory.Spaces.Tests.{plain}
use literate_os.Scheduler.System.Rounds.{end_process-leave}
use literate_os.Scheduler.System.{WellFormed, timer, create, Steps, start, later}
use literate_os.Scheduler.System.Entry.{IsRing-update}
use literate_os.Scheduler.System.Laws.{Steps-WellFormed}
use literate_os.Scheduler.Startup.{initialize}
use literate_os.Scheduler.System.Reached.{idle_process, reached-WellFormed}
use literate_os.Scheduler.System.Delivery.{send_message-reaches}
use literate_os.Scheduler.System.Turns.{ticks-turn}

three-WellFormed : WellFormed three (32 ∷ 48 ∷ [])
three-WellFormed = record {
  ring = three-IsRing;
  runs = refl;
  unique = λ a b n ma mb pa pb. ground arith;
  given = λ a n m pid. ground arith;
}

abbrev here : Here
here = record { eip = 0x1000; esp = 0x7000; ebp = 0x7100 }

abbrev ticked : Scheduler
ticked = store three 16 (proc 1 32 1)

first_tick : tick here three ≡ ok ticked
unfolding tick load
first_tick = refl

fourth_created :
    (s' : Scheduler) × (create_process counting 64 0x2000 ticked 10 ≡ ok (4, s', 14))
    × IsRing s'.procs 16 (64 ∷ 32 ∷ 48 ∷ [])
    × (s'.queue_start ≡ 16)
    × (s'.current ≡ 16)
    × (s'.locked ≡ false)
fourth_created =
    create_process-IsRing counting 64 0x2000 ticked 10 (32 ∷ 48 ∷ [])
      (IsRing-update 16 (proc 1 32 2) (proc 1 32 1) three-IsRing refl refl) (omega arith) refl
      stacked

two_steps : Steps counting 3 three 10 fourth_created.0 14
two_steps =
    later (later start (timer here first_tick refl))
      (create 64 0x2000 4 (omega arith) refl fourth_created.1)

Steps-WellFormed_example :
    (ps : List Ptr) × WellFormed fourth_created.0 ps
    × (length ps ≤ 3)
    × (fourth_created.0.next_pid ≡ 5)
unfolding two_steps
Steps-WellFormed_example =
    Steps-WellFormed counting 3 (32 ∷ 48 ∷ []) two_steps ((tt, tt), tt) three-WellFormed
      (omega arith) (omega arith)

abbrev greeting : Message
greeting = record { sender_pid = 1; receiver_pid = 3; id = 7; payload = 8; payload2 = 9 }

send_message-reaches_example :
    (s' : Scheduler) × (send_message 3 greeting three ≡ ok (0, s'))
    × (s'.procs 48 ≡ some (record (proc 3 16 0) { message_queue = greeting ∷ [] }))
    × ((a : Ptr) → a ≢ 48 → s'.procs a ≡ memory a)
send_message-reaches_example =
    send_message-reaches 3 three (32 ∷ 48 ∷ []) 48 (proc 3 16 0) greeting three-WellFormed
      (omega arith) refl refl refl

-- The places of several interruptions.
abbrev places : ℕ → Here
places i = record { eip = 0xD0000000 + i; esp = 0xC0300000; ebp = 0xC0300010 }

places-fresh : (i : ℕ) → (places i).eip ≢ 0xC0000123
places-fresh i = omega arith

ticks-turn_example :
    (n : ℕ) × (s' : Scheduler) × (n ≤ 5)
    × (ticks n places three ≡ ok s')
    × (s'.current ≡ 48)
    × (s'.cpu ≡ record (switched (proc 3 16 0) idle_cpu) { switches = s'.cpu.switches })
ticks-turn_example =
    ticks-turn places three (32 ∷ 48 ∷ []) 48 (proc 3 16 0) three-WellFormed refl places-fresh refl
      (omega arith) refl

-- The scheduler as the program starts, and after `Initialize`.
abbrev blank : Scheduler
blank = record {
  procs = λ a. none;
  queue_start = 0;
  current = 0;
  next_pid = 0;
  handles = [];
  locked = true;
  cpu = record { entry_point = 0; stack = 0; base = 0; page_directory = 0; switches = 0 };
}

abbrev idle : Process
idle = idle_process 0 16 0xC0105000 0xC0404000 0x200000

abbrev started : Scheduler
started = record blank {
  procs =
      write
        (write
          (write blank.procs 16 (some (new_process 0 0xC0105000 0xC0404000 no_directory 1 1 []))) 16
          (some (record (new_process 0 0xC0105000 0xC0404000 no_directory 1 1 []) { next = 16 })))
        16 (some idle);
  queue_start = 16;
  current = 16;
  next_pid = 1;
  locked = false;
  cpu = switched idle blank.cpu;
}

starts : initialize counting 16 0xC0105000 0x200000 blank 10 ≡ ok (started, 14)
unfolding initialize create_process load insert_process_into_queue
starts = rw stacked refl

idle-tick : tick here started ≡ ok (store started 16 (record idle { time_slice = 0 }))
unfolding tick load
idle-tick = refl

after_start : Steps counting 3 started 14 (store started 16 (record idle { time_slice = 0 })) 14
after_start = later start (timer here idle-tick refl)

reached-WellFormed_example :
    (ps : List Ptr) × WellFormed (store started 16 (record idle { time_slice = 0 })) ps
    × (length ps ≤ 0)
    × (started.next_pid ≡ 1)
unfolding after_start
reached-WellFormed_example =
    reached-WellFormed counting 3 16 0xC0105000 0x200000 blank 10 refl refl (omega arith) starts
      after_start (tt, tt) (omega arith) (omega arith)

-- The second process of three ends; the round is seen from the first one before, and from the third one then.
end_process-leave_example :
    (s' : Scheduler) × (ts : List Ptr) × (end_process counting 2 32 three 10 ≡ ok (s', 10))
    × IsRing s'.procs s'.current ts
    × (round (s'.current ∷ ts) ≡ leave 32 (round (16 ∷ 32 ∷ 48 ∷ [])))
end_process-leave_example =
    end_process-leave counting 2 three 10 32 48 16 (16 ∷ []) (32 ∷ 48 ∷ []) (proc 2 48 0)
      second-IsRing three-IsRing refl (omega arith) refl nothing_to_close refl nothing_to_free

-- The kernel's memory with the page tables that `InitializeVirtualMemory` leaves.
abbrev set_up : Spaces
set_up = record plain { at = λ a. initialize_virtual_memory 0xC0100000 }

abbrev no_bytes : ℕ → ℕ → Spaces → Run Spaces
no_bytes at n m = ok m

ticks-switch_example :
    (s' : Scheduler) × (ticks 3 places three ≡ ok s')
    × (s'.current ≡ 32)
    × (s'.cpu ≡ switched (proc 2 48 0) idle_cpu)
    × (s'.procs 16
        ≡ some (
            saved
              (places 2)
              (record (proc 1 32 2) { time_slice = (proc 1 32 2).time_slice_default })))
    × ((a : Ptr) → a ≢ 16 → s'.procs a ≡ memory a)
ticks-switch_example =
    ticks-switch 2 places three (proc 1 32 2) (proc 2 48 0) refl places-fresh (omega arith) refl
      refl (omega arith) (omega arith) refl
