-- ===== src/Scheduler.antt =====
-- The scheduler: Kernel/src/arch/x86/scheduler.cpp and Kernel/include/arch/x86/scheduler.h.
--
-- A process lives at an address of `procs`; address 0 is NULL. The ready queue is the circular
-- list through `next`. What `TaskSwitch` loads is kept in `cpu`.
pub mod Handles
pub mod Lifecycle
pub mod Messages
pub mod Ring
pub mod System
pub mod Tests
pub mod Startup
pub mod Tick
use literate_os.Common.{
  ℕ, zero, suc, ◌+◌, ◌-◌, ◌*◌, ◌/◌, ◌^◌, ◌<◌, Bool, true, false, ◌||◌, Option, none, some, List, [],
  ◌∷◌, ◌++◌, ◌==◌, ltb, if◌then◌else◌, length, get_or,
}
use literate_os.Common.Bits.{u32, add32}
use literate_os.Common.Run.{Run, ok, fault, out_of_fuel, ◌>>=◌, or_fault, write}

abbrev pub Ptr : Type 0
Ptr = ℕ

-- `page_directory_ptr_t` of Kernel/include/arch/x86/paging.h.
pub record PageDirectoryPtr : Type 0 where
  pub page_directory : ℕ
  pub page_directory_phys : ℕ
  pub page_tables : ℕ

-- `message_t`.
pub record Message : Type 0 where
  pub sender_pid : ℕ
  pub receiver_pid : ℕ
  pub id : ℕ
  pub payload : ℕ
  pub payload2 : ℕ

-- `elf32_program_header_t`: the fields that the scheduler reads.
pub record ProgramHeader : Type 0 where
  pub p_offset : ℕ
  pub p_vaddr : ℕ
  pub p_filesz : ℕ
  pub p_memsz : ℕ

-- The registers of `threads[0]` that a switch loads.
pub record Registers : Type 0 where
  pub eip : ℕ
  pub esp : ℕ
  pub ebp : ℕ
  pub eflags : ℕ

-- `process_t`; a file descriptor is the address of its node.
pub record Process : Type 0 where
  pub pid : ℕ
  pub priority : ℕ
  pub page_directory : PageDirectoryPtr
  pub state : ℕ
  pub registers : Registers
  pub stack : ℕ
  pub thread_count : ℕ
  pub time_slice : ℕ
  pub time_slice_default : ℕ
  pub next : Ptr
  pub program_headers : List ProgramHeader
  pub file_descriptors : List Ptr
  pub message_queue : List Message

-- `handle_index_t`.
pub record HandleIndex : Type 0 where
  pub owner_pid : ℕ
  pub owner : Ptr
  pub handle : Ptr

-- `processEntryPoint`, `processStack`, `processBase`, `processPageDirectory`, and the number of
-- calls of `TaskSwitch`.
pub record Cpu : Type 0 where
  pub entry_point : ℕ
  pub stack : ℕ
  pub base : ℕ
  pub page_directory : ℕ
  pub switches : ℕ

pub record Scheduler : Type 0 where
  pub procs : Ptr → Option Process
  pub queue_start : Ptr
  pub current : Ptr
  pub next_pid : ℕ
  pub handles : List HandleIndex
  pub locked : Bool
  pub cpu : Cpu

-- `*p`.
unfoldable pub load : Scheduler → Ptr → Run Process
load s p = if p == 0 then fault else or_fault (s.procs p)

-- `*p = x` at an address that holds a process.
abbrev pub store : Scheduler → Ptr → Process → Scheduler
store s p x = record s { procs = write s.procs p (some x) }

unfoldable pub get_current_process : Scheduler → Ptr
get_current_process s = s.current

abbrev pub new_index : ℕ → Ptr → Ptr → HandleIndex
new_index pid owner handle = record { owner_pid = pid; owner = owner; handle = handle }

unfoldable pub register_handle : Ptr → Scheduler → Run Scheduler
register_handle handle s = do
  x ← load s s.current
  let index = new_index (u32 x.pid) s.current handle
  ok (record s { handles = s.handles ++ index ∷ [] })

-- The loop of `FindHandle`; the null index has handle 0, and the model fills its other fields with 0.
unfoldable pub find_handle_from : List HandleIndex → Ptr → HandleIndex
find_handle_from [] handle = new_index 0 0 0
find_handle_from (h ∷ hs) handle = if h.handle == handle then h else find_handle_from hs handle

unfoldable pub find_handle : Scheduler → Ptr → HandleIndex
unfolding find_handle_from
find_handle s handle = find_handle_from s.handles handle

-- The `while` loop of `FindProcessByPID`; 0 is NULL.
pub find_from : ℕ → Scheduler → ℕ → Ptr → Run Ptr
find_from zero s pid p = out_of_fuel
find_from (suc fuel) s pid p =
    let round = (do
      x ← load s p
      let rest = find_from fuel s pid x.next
      if pid == x.pid then ok p else rest) in
    if p == s.queue_start then ok 0 else round

pub find_process_by_pid : ℕ → Scheduler → ℕ → Run Ptr
unfolding find_from
find_process_by_pid fuel s pid = do
  x ← load s s.queue_start
  if pid == x.pid then ok s.queue_start else find_from fuel s pid x.next

-- Both overloads of `SendMessage`: to a process, and to the process that the message names.
unfoldable pub send_message_to : Ptr → Message → Scheduler → Run (ℕ × Scheduler)
send_message_to p msg s = do
  x ← load s p
  ok (0, store s p (record x { message_queue = x.message_queue ++ msg ∷ [] }))

unfoldable pub send_message : ℕ → Message → Scheduler → Run (ℕ × Scheduler)
unfolding find_process_by_pid send_message_to
send_message fuel msg s = do
  p ← find_process_by_pid fuel s msg.receiver_pid
  if p == 0 then ok (1, s) else send_message_to p msg s

-- `List::remove_at` of Kernel/include/list.h. Out of range it returns a zeroed object; in range it
-- takes the lock and runs off its end with no `return`, which is undefined.
pub remove_at {ℓ} : {A : Type ℓ} → A → List A → ℕ → Run A
remove_at zeroed xs pos = if ltb pos (length xs) then fault else ok zeroed

abbrev pub null_message : Message
null_message = record { sender_pid = 0; receiver_pid = 0; id = 0; payload = 0; payload2 = 0 }

-- The null message has both PIDs 0; the model fills the fields that the source leaves unset with 0.
pub receive_message : Ptr → Scheduler → Run Message
unfolding remove_at
receive_message p s = do
  x ← load s p
  if length x.message_queue == 0 then ok null_message else remove_at null_message x.message_queue 0

pub insert_process_into_queue : Ptr → Scheduler → Run Scheduler
insert_process_into_queue p s =
    if s.queue_start == 0
    then (do
      x ← load s p
      ok (record (store s p (record x { next = p })) { queue_start = p; current = p }))
    else (do
      first ← load s s.queue_start
      x ← load s p
      let one =
          store (store s s.queue_start (record first { next = p })) p
            (record x { next = s.queue_start })
      let more =
          store (store s p (record x { next = first.next })) s.queue_start
            (record first { next = p })
      ok (if first.next == 0 then one else more))

-- The `while` loop of `RemoveProcessFromQueue` at `q`.
pub unlink_from : ℕ → Ptr → Ptr → Ptr → Scheduler → Run Scheduler
unlink_from zero p next_proc q s = out_of_fuel
unlink_from (suc fuel) p next_proc q s = do
  y ← load s q
  let rest = unlink_from fuel p next_proc y.next s
  let unlinked = store s q (record y { next = next_proc })
  if y.next == 0 || q == p then ok s else if y.next == p then ok unlinked else rest

pub remove_process_from_queue : ℕ → Ptr → Scheduler → Run Scheduler
unfolding unlink_from
remove_process_from_queue fuel p s = do x ← load s p; unlink_from fuel p x.next x.next s
