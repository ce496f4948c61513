-- ===== src/Syscall/Tests.antt =====
-- Runs of system calls, and their theorems at concrete states.
use literate_os.Common.{◌<◌, ◌⊎◌}
use literate_os.Common.{ℕ, ◌+◌, ◌≡◌, refl, ◌↔◌, false, some, [], ◌∷◌, ◌==◌, if◌then◌else◌, arith}
use literate_os.Common.Run.{Run, ok, fault}
use literate_os.Scheduler.{Ptr, Process, Scheduler, find_process_by_pid}
use literate_os.Common.{ap, ◌∙◌}
use literate_os.Scheduler.Ring.{first_with_pid, find_process_by_pid_lem}
use literate_os.Scheduler.Tests.{proc, memory, three, three-IsRing}
use literate_os.Memory.Paging.{page_directory_index, page_table_index}
use literate_os.Memory.Paging.Allocate.{allocate_virtual_pages, run_of, find_run, mark_run}
use literate_os.Memory.Spaces.{Spaces}
use literate_os.Memory.Spaces.Backing.{Backed}
use literate_os.Memory.Spaces.Tests.{unmapped, plain, plain-HasBitmap}
use literate_os.Syscall.Memalloc.{sys_memalloc, sys_memalloc_lem}
use literate_os.Syscall.{Regs, Kernel}
use literate_os.Syscall.Table.{handler_at}
use literate_os.Syscall.Table.Laws.{handler_at-fault}
use literate_os.Syscall.Files.{
  descriptor, FileSystem, file, directory, write_word, walk, exec_node, sys_open,
}
use literate_os.Syscall.Files.Laws.{Runs, sys_open-descriptor, sys_open-directory}

abbrev kernel : Kernel
kernel = record { sched = three; words = λ a. 0 }

abbrev regs : Regs
regs = record { eax = 20; ebx = 2; ecx = 0x500; edx = 8; esi = 9 }

-- The root 100 has a directory 101 under the name 1, and that a file 102 under the name 2.
abbrev small_fs : FileSystem ℕ
small_fs = record {
  root = 100;
  find_dir = λ dir name. if dir + name == 101 then 101 else if dir + name == 103 then 102 else 0;
  flags = λ node. if node == 102 then 1 else 2;
  size = λ node. 4096;
}

walk_to_file : walk small_fs (1 ∷ 2 ∷ []) 100 ≡ file 102
unfolding walk
walk_to_file = refl

kernel-Runs : Runs kernel (proc 1 32 2)
kernel-Runs = record { current_set = omega arith; current_at = refl }

walk_to_directory : walk small_fs (1 ∷ []) 100 ≡ directory 101
unfolding walk
walk_to_directory = refl

opens_nothing :
    sys_open small_fs false (1 ∷ []) 77 regs kernel
    ≡ ok (0, record kernel { words = write_word kernel.words 0x500 77 })
opens_nothing = sys_open-directory small_fs (1 ∷ []) 77 regs kernel 101 walk_to_directory

abbrev close_nothing : Ptr → Kernel → Run Kernel
close_nothing node k = ok k

second_found : first_with_pid memory 2 (16 ∷ 32 ∷ 48 ∷ []) ≡ 32
unfolding first_with_pid
second_found = refl

abbrev load_nothing : Ptr → Scheduler → Run (ℕ × Scheduler)
load_nothing node s = ok (3, s)

node_found : exec_node small_fs (1 ∷ 2 ∷ []) ≡ 102
unfolding exec_node walk
node_found = refl

third : first_with_pid memory 3 (16 ∷ 32 ∷ 48 ∷ []) ≡ 48
unfolding first_with_pid
third = refl

third_found : find_process_by_pid 3 three 3 ≡ ok 48
third_found =
    find_process_by_pid_lem 3 three 3 (32 ∷ 48 ∷ []) three-IsRing (omega arith) ∙ ap ok third

two_pages_found : allocate_virtual_pages 2 unmapped ≡ some (0x40000, mark_run 4 0 64 unmapped)
unfolding allocate_virtual_pages run_of page_directory_index page_table_index find_run mark_run
two_pages_found = refl

sys_memalloc_lem_example :
    (k' : Kernel) × (m' : Spaces) × (sys_memalloc regs kernel plain ≡ ok (0, k', m'))
    × (k'.words 0x500 ≡ 0x40000)
    × Backed 0x40000 2 0 plain.physical (mark_run 4 0 64 unmapped) m'.physical (m'.at 0)
sys_memalloc_lem_example =
    sys_memalloc_lem regs kernel plain (proc 1 32 2) 0x40000 (mark_run 4 0 64 unmapped)
      (omega arith) (omega arith) (omega arith) (omega arith) refl plain-HasBitmap two_pages_found

abbrev past_table : ℕ
past_table = 37

handler_at-fault_example : (handler_at past_table ≡ fault) ↔ ((past_table ≡ 0) ⊎ (past_table ≡ 37))
handler_at-fault_example = handler_at-fault past_table (omega arith)

sys_open-descriptor_example :
    (k' : Kernel) × (x' : Process) × (sys_open small_fs false (1 ∷ 2 ∷ []) 77 regs kernel
      ≡ ok (0, k'))
    × Runs k' x'
    × (k'.words 0x500 ≡ 3)
    × (descriptor x' (k'.words 0x500) ≡ 102)
    × ((fd : ℕ) → fd < 3 → descriptor x' fd ≡ descriptor (proc 1 32 2) fd)
sys_open-descriptor_example =
    sys_open-descriptor small_fs false (1 ∷ 2 ∷ []) 77 regs kernel (proc 1 32 2) 102 kernel-Runs
      walk_to_file
