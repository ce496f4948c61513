-- ===== src/Syscall/Table.antt =====
-- The table `syscalls` and its dispatcher `SyscalHandler`.
pub mod Laws
use literate_os.Common.{
  ℕ, Bool, true, false, Option, none, some, List, [], ◌∷◌, leb, if◌then◌else◌, get_elem?,
}
use literate_os.Common.Run.{Run, ok, fault, ◌>>=◌}
use literate_os.Interrupts.{Idt, register_interrupt_handler}
use literate_os.Scheduler.{Scheduler}
use literate_os.Syscall.{Regs, Kernel}

-- The handlers, named after the functions of the source.
pub data Handler : Type 0 where
  exit exec read write open_file close sleep create link unlink chdir time : Handler
  send_message receive_message uname memalloc stat lseek get_pid mount umount : Handler
  create_desktop create_window paint_desktop paint_window : Handler
  desktop_get_window desktop_get_window_count copy_window_surface : Handler
  read_dir uptime get_video_mode destroy_window grant_pty fork_exec get_sysinfo debug : Handler

abbrev pub num_syscalls : ℕ
num_syscalls = 38

-- The array as it is initialised; entry 0 is `nullptr`.
pub syscalls : List (Option Handler)
syscalls =
    none
    ∷ some exit
    ∷ some exec
    ∷ some read
    ∷ some write
    ∷ some open_file
    ∷ some close
    ∷ some sleep
    ∷ some create
    ∷ some link
    ∷ some unlink
    ∷ some exec
    ∷ some chdir
    ∷ some time
    ∷ some send_message
    ∷ some receive_message
    ∷ some uname
    ∷ some memalloc
    ∷ some stat
    ∷ some lseek
    ∷ some get_pid
    ∷ some mount
    ∷ some umount
    ∷ some create_desktop
    ∷ some create_window
    ∷ some paint_desktop
    ∷ some desktop_get_window
    ∷ some desktop_get_window_count
    ∷ some copy_window_surface
    ∷ some read_dir
    ∷ some uptime
    ∷ some get_video_mode
    ∷ some destroy_window
    ∷ some grant_pty
    ∷ some fork_exec
    ∷ some get_sysinfo
    ∷ some debug
    ∷ []

-- The numbers `SYS_*`, by the handler that each is named after. `SYS_*` has no 11, and no number
-- for `SysDebug`.
unfoldable pub sys_number : Handler → Option ℕ
sys_number exit = some 1
sys_number exec = some 2
sys_number read = some 3
sys_number write = some 4
sys_number open_file = some 5
sys_number close = some 6
sys_number sleep = some 7
sys_number create = some 8
sys_number link = some 9
sys_number unlink = some 10
sys_number chdir = some 12
sys_number time = some 13
sys_number send_message = some 14
sys_number receive_message = some 15
sys_number uname = some 16
sys_number memalloc = some 17
sys_number stat = some 18
sys_number lseek = some 19
sys_number get_pid = some 20
sys_number mount = some 21
sys_number umount = some 22
sys_number create_desktop = some 23
sys_number create_window = some 24
sys_number paint_desktop = some 25
sys_number paint_window = some 26
sys_number desktop_get_window = some 27
sys_number desktop_get_window_count = some 28
sys_number copy_window_surface = some 29
sys_number read_dir = some 30
sys_number uptime = some 31
sys_number get_video_mode = some 32
sys_number destroy_window = some 33
sys_number grant_pty = some 34
sys_number fork_exec = some 35
sys_number get_sysinfo = some 36
sys_number debug = none

-- `syscalls[n]` called: an index outside the array and a null entry are undefined.
unfoldable pub handler_at : ℕ → Run Handler
unfolding syscalls
handler_at n = elim (get_elem? syscalls n) [
  | none ↦ fault
  | some h ↦ elim h [ none ↦ fault | some f ↦ ok f ]
]

abbrev pub set_lock : Bool → Kernel → Kernel
set_lock b k = record k { sched = record k.sched { locked = b } }

-- `run` is the handlers; the dispatcher returns the registers with the result in `eax`.
pub syscall_handler :
    (Handler → Regs → Kernel → Run (ℕ × Kernel)) → Regs → Kernel → Run (Regs × Kernel)
unfolding handler_at
syscall_handler run regs k =
    let call = (do
      h ← handler_at regs.eax
      (ret, k') ← run h regs (set_lock true k)
      ok (record regs { eax = ret }, set_lock false k')) in
    if leb num_syscalls regs.eax then ok (regs, k) else call

-- `IntializeSyscalls`; `handler_at` is the address of `SyscalHandler`.
abbrev pub initialize_syscalls : (handler_at : ℕ) → Idt → Idt
initialize_syscalls handler_at s = register_interrupt_handler 0x69 handler_at s
