-- ===== src/Scheduler/Lifecycle/Tests.antt =====
-- The theorems on creating, loading and ending processes, on a memory that only counts blocks.
use literate_os.Common.{ℕ, ◌+◌, ◌-◌, ◌≡◌, refl, some, [], ◌∷◌, ◌==◌, if◌then◌else◌, arith}
use literate_os.Common.Run.{ok, fault}
use literate_os.Scheduler.{ProgramHeader, Scheduler, find_process_by_pid}
use literate_os.Scheduler.Ring.{IsRing}
use literate_os.Scheduler.Lifecycle.{
  MemoryOps, ElfHeader, no_directory, allocate_stack, map_stack, close_all, free_segments,
  end_process,
}
use literate_os.Scheduler.Lifecycle.Laws.{find_process_by_pid-end_process}
use literate_os.Scheduler.Lifecycle.Loading.{IsTotal, kept_headers}
use literate_os.Memory.Paging.{page_directory_index}
use literate_os.Memory.Paging.Allocate.{
  kernel_allocate_virtual_pages, kernel_run_of, find_run, mark_run,
}
use literate_os.Memory.Spaces.{Spaces}
use literate_os.Memory.Spaces.Backing.{Backed}
use literate_os.Memory.Spaces.Tests.{unmapped, plain, plain-HasBitmap}
use literate_os.Scheduler.Lifecycle.KernelMemory.{kernel_memory, allocate_stack-Backed}
use literate_os.Scheduler.Tests.{proc, memory, three, three-IsRing}

-- A memory that only counts the blocks handed out.
abbrev pub counting : MemoryOps ℕ
counting = record {
  kernel_allocate_virtual_pages = λ n m. ok (0xC0400000, m);
  allocate_physical_memory_block = λ m. ok (m, m + 1);
  free_physical_memory_block = λ a m. ok (m - 1);
  map_virtual_pages = λ phys virt n m. ok m;
  map_virtual_pages_in = λ phys virt n dir m. ok m;
  virtual_to_physical_address = λ a m. a;
  create_address_space = λ m. ok (no_directory, m);
  load_kernel_page_directory = λ m. m;
  switch_page_directory = λ dir m. m;
  clear_bytes = λ at n m. ok m;
  copy_bytes = λ to from n m. ok m;
  close_node = λ p m. ok m;
  clear_list = λ fds m. ok m;
}

counting-IsTotal : IsTotal counting
counting-IsTotal = record {
  allocates = λ m. (_, refl);
  maps = λ phys virt n m. (m, refl);
  maps_in = λ phys virt n dir m. (m, refl);
  clears = λ at n m. (m, refl);
  copies = λ to from n m. (m, refl);
}

pub second-IsRing : IsRing memory 32 (48 ∷ 16 ∷ [])
second-IsRing = record {
  closed = (
    refl,
    omega arith,
    proc 2 48 0,
    refl,
    (refl, omega arith, proc 3 16 0, refl, (refl, omega arith, proc 1 32 2, refl, refl)),
  );
  distinct = (refl, (refl, (refl, tt)));
}

pub stacked : allocate_stack counting 10 ≡ ok (0xC0404000, 14)
unfolding allocate_stack map_stack
stacked = refl

pub nothing_to_close : close_all counting (0 ∷ 0 ∷ 0 ∷ []) 10 ≡ ok 10
unfolding close_all
nothing_to_close = refl

pub nothing_to_free : free_segments counting [] 10 ≡ ok 10
unfolding free_segments
nothing_to_free = refl

find_process_by_pid-end_process_example :
    (s' : Scheduler) × (end_process counting 2 16 three 10 ≡ ok (s', 10))
    × (find_process_by_pid 3 s' 2 ≡ fault)
find_process_by_pid-end_process_example =
    find_process_by_pid-end_process counting 2 3 2 three 10 32 (48 ∷ []) (proc 1 32 2) three-IsRing
      (omega arith) refl nothing_to_close refl nothing_to_free

-- A file with three program headers of 32 bytes, the second of size 0.
abbrev header_at : ℕ → ProgramHeader
header_at a = record {
  p_offset = 0x100;
  p_vaddr = a;
  p_filesz = 16;
  p_memsz = if a == 0x9054 then 0 else 5000;
}

abbrev elf_header : ElfHeader
elf_header = record { e_entry = 0x1000; e_phoff = 0x34; e_phentsize = 32; e_phnum = 3 }

two_kept : kept_headers header_at elf_header 0x9000 3 0 ≡ header_at 0x9034 ∷ header_at 0x9074 ∷ []
unfolding kept_headers
two_kept = refl

four_pages_allocated :
    kernel_allocate_virtual_pages 4 unmapped ≡ some (4096, mark_run 5 0 0 unmapped)
unfolding kernel_allocate_virtual_pages kernel_run_of page_directory_index find_run mark_run
four_pages_allocated = refl

abbrev kernel_ops : MemoryOps Spaces
kernel_ops = kernel_memory (λ at n m. ok m) (λ to from n m. ok m) (λ p m. ok m) (λ fds m. ok m)

allocate_stack-Backed_example :
    (m' : Spaces) × (allocate_stack kernel_ops plain ≡ ok (20480, m'))
    × Backed 4096 4 0 plain.physical (mark_run 5 0 0 unmapped) m'.physical (m'.at 0xC0200000)
allocate_stack-Backed_example =
    allocate_stack-Backed (λ at n m. ok m) (λ to from n m. ok m) (λ p m. ok m) (λ fds m. ok m) plain
      4096 (mark_run 5 0 0 unmapped) plain-HasBitmap four_pages_allocated
