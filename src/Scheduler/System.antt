-- ===== src/Scheduler/System.antt =====
-- The scheduler under any order of the calls that the kernel makes of it: the timer interrupt, the
-- system calls and the key interrupt, of Kernel/src/arch/x86/scheduler.cpp and syscall.cpp.
pub mod Entry
pub mod Leave
pub mod InPlace
pub mod Laws
pub mod Delivery
pub mod Turns
pub mod Reached
pub mod Rounds
pub mod Booted
mod Tests
use literate_os.Common.{ℕ, zero, suc, ◌+◌, ◌<◌, ◌≡◌, ◌≢◌, Bool, true, Option, none, some, List, ◌∷◌}
use literate_os.Common.Run.{ok}
use literate_os.Scheduler.{
  Ptr, Message, ProgramHeader, Process, Scheduler, load, store, register_handle, send_message,
}
use literate_os.Scheduler.Ring.{has, IsRing}
use literate_os.Scheduler.Ring.Pids.{pid_at}
use literate_os.Scheduler.Tick.{Here, tick}
use literate_os.Scheduler.Lifecycle.{MemoryOps, ElfHeader, create_process, load_elf, end_process}

-- The queue starts at `queue_start` and goes on through `ps`; the current process is in it, and the
-- PIDs of its processes are different and were all given out.
pub record WellFormed (s : Scheduler) (ps : List Ptr) : Type 0 where
  pub ring : IsRing s.procs s.queue_start ps
  pub runs : has s.current (s.queue_start ∷ ps) ≡ true
  pub unique :
      (a b : Ptr) (n : ℕ)
      → has a (s.queue_start ∷ ps) ≡ true
      → has b (s.queue_start ∷ ps) ≡ true
      → pid_at s.procs a ≡ some n
      → pid_at s.procs b ≡ some n
      → a ≡ b
  pub given :
      (a : Ptr) (n : ℕ)
      → has a (s.queue_start ∷ ps) ≡ true
      → pid_at s.procs a ≡ some n
      → n < s.next_pid

module _ {M : Type 0} (ops : MemoryOps M) (fuel : ℕ) where
  -- `kmalloc` returns an address that holds no process. `EndProcess` is called by `SysExit` only, of the
  -- current process, whichever that is.
  pub data Step (s : Scheduler) (m : M) (s' : Scheduler) (m' : M) : Type 0 where
    timer : (here : Here) → tick here s ≡ ok s' → m' ≡ m → Step s m s' m'
    send :
        (msg : Message) (code : ℕ)
        → send_message fuel msg s ≡ ok (code, s')
        → m' ≡ m
        → Step s m s' m'
    register : (handle : Ptr) → register_handle handle s ≡ ok s' → m' ≡ m → Step s m s' m'
    lock : (b : Bool) → s' ≡ record s { locked = b } → m' ≡ m → Step s m s' m'
    describe :
        (x : Process) (fds : List Ptr)
        → load s s.current ≡ ok x
        → s' ≡ store s s.current (record x { file_descriptors = fds })
        → Step s m s' m'
    create :
        (fresh entry pid : ℕ)
        → fresh ≢ 0
        → s.procs fresh ≡ none
        → create_process ops fresh entry s m ≡ ok (pid, s', m')
        → Step s m s' m'
    load_file :
        (header_at : ℕ → ProgramHeader) (header : ElfHeader) (fresh elf pid : ℕ)
        → fresh ≢ 0
        → s.procs fresh ≡ none
        → load_elf ops header_at header fresh elf s m ≡ ok (pid, s', m')
        → Step s m s' m'
    exit : end_process ops fuel s.current s m ≡ ok (s', m') → Step s m s' m'

  pub data Steps (s : Scheduler) (m : M) : Scheduler → M → Type 0 where
    start : Steps s m s m
    later : {t u : Scheduler} {k l : M} → Steps s m t k → Step t k u l → Steps s m u l

  abbrev pub created : {s s' : Scheduler} {m m' : M} → Step s m s' m' → ℕ
  created (create fresh entry pid nz free run) = 1
  created (load_file header_at header fresh elf pid nz free run) = 1
  created (timer here run e) = 0
  created (send msg code run e) = 0
  created (register handle run e) = 0
  created (lock b e e') = 0
  created (describe x fds at e) = 0
  created (exit run) = 0

  -- How many processes are created on the way.
  abbrev pub creations : {s : Scheduler} {m : M} {s' : Scheduler} {m' : M} → Steps s m s' m' → ℕ
  creations start = 0
  creations (later steps step) = creations steps + created step

  -- The process that starts the queue, which `Initialize` creates to idle, does not exit.
  abbrev pub EndsOther : {s s' : Scheduler} {m m' : M} → Step s m s' m' → Type 0
  EndsOther {s} (exit run) = s.current ≢ s.queue_start
  EndsOther (create fresh entry pid nz free run) = Unit
  EndsOther (load_file header_at header fresh elf pid nz free run) = Unit
  EndsOther (timer here run e) = Unit
  EndsOther (send msg code run e) = Unit
  EndsOther (register handle run e) = Unit
  EndsOther (lock b e e') = Unit
  EndsOther (describe x fds at e) = Unit

  abbrev pub StartStays :
      {s : Scheduler} {m : M} {s' : Scheduler} {m' : M} → Steps s m s' m' → Type 0
  StartStays start = Unit
  StartStays (later steps step) = StartStays steps × EndsOther step
