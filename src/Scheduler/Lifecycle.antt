-- ===== src/Scheduler/Lifecycle.antt =====
-- `CreateProcess`, `LoadELF` and `EndProcess`. What they call of the `Memory` namespace, and the
-- `close` callback of a file node and the clearing of a list in memory, is the interface `MemoryOps` over an abstract memory state.
pub mod Laws
pub mod Loading
pub mod KernelMemory
pub mod Tests
use literate_os.Common.{
  ℕ, zero, suc, ◌+◌, ◌*◌, ◌/◌, ◌^◌, Bool, true, none, List, [], ◌∷◌, ◌++◌, ◌==◌, if◌then◌else◌,
}
use literate_os.Common.Bits.{u32, add32}
use literate_os.Common.Run.{Run, ok, ◌>>=◌, write}
use literate_os.Scheduler.{
  Ptr, PageDirectoryPtr, ProgramHeader, Registers, Process, Scheduler, load, store,
  insert_process_into_queue, remove_process_from_queue,
}
use literate_os.Scheduler.Tick.{switch_to}

pub record MemoryOps (M : Type 0) : Type 0 where
  pub kernel_allocate_virtual_pages : ℕ → M → Run (ℕ × M)
  pub allocate_physical_memory_block : M → Run (ℕ × M)
  pub free_physical_memory_block : ℕ → M → Run M
  -- phys, virt, amount: in the current page directory, and in a given one
  pub map_virtual_pages : ℕ → ℕ → ℕ → M → Run M
  pub map_virtual_pages_in : ℕ → ℕ → ℕ → PageDirectoryPtr → M → Run M
  pub virtual_to_physical_address : ℕ → M → ℕ
  pub create_address_space : M → Run (PageDirectoryPtr × M)
  pub load_kernel_page_directory : M → M
  pub switch_page_directory : ℕ → M → M
  -- `memset(p, 0, n)` and `memcpy(dest, src, n)`
  pub clear_bytes : ℕ → ℕ → M → Run M
  pub copy_bytes : ℕ → ℕ → ℕ → M → Run M
  pub close_node : Ptr → M → Run M
  -- `List::clear` of a list of descriptors, whose nodes are in this memory
  pub clear_list : List Ptr → M → Run M

-- The fields of `elf32_hdr_t` that the loader uses; `header_at` reads a program header at an address.
pub record ElfHeader : Type 0 where
  pub e_entry : ℕ
  pub e_phoff : ℕ
  pub e_phentsize : ℕ
  pub e_phnum : ℕ

abbrev pub page_size : ℕ
page_size = 4096

abbrev pub no_directory : PageDirectoryPtr
no_directory = record { page_directory = 0; page_directory_phys = 0; page_tables = 0 }

-- The process as both creators leave it before it goes into the queue.
abbrev pub new_process :
    (pid entry top : ℕ)
    → PageDirectoryPtr
    → (slice slice_default : ℕ) → List ProgramHeader
    → Process
new_process pid entry top dir slice slice_default headers = record {
  pid = pid;
  priority = 1;
  page_directory = dir;
  state = 1;
  registers = record { eip = entry; esp = top; ebp = top; eflags = 0x200 };
  stack = top;
  thread_count = 1;
  time_slice = slice;
  time_slice_default = slice_default;
  next = 0;
  program_headers = headers;
  file_descriptors = 0 ∷ 0 ∷ 0 ∷ [];
  message_queue = [];
}

module _ {M : Type 0} (ops : MemoryOps M) where
  -- The loop that maps the stack, with `left` rounds to go.
  pub map_stack : (left i stack : ℕ) → M → Run M
  map_stack zero i stack m = ok m
  map_stack (suc left) i stack m = do
    (phys, m) ← ops.allocate_physical_memory_block m
    m ← ops.map_virtual_pages phys (u32 (stack + page_size * i)) 1 m
    map_stack left (i + 1) stack m

  pub allocate_stack : M → Run (ℕ × M)
  allocate_stack m = do
    (stack, m) ← ops.kernel_allocate_virtual_pages 4 m
    m ← map_stack 4 0 stack m
    ok (u32 (stack + 16384), m)

  -- `fresh` is what `kmalloc` returns.
  unfoldable pub create_process : (fresh entry : ℕ) → Scheduler → M → Run (ℕ × Scheduler × M)
  create_process fresh entry s m = do
    (top, m) ← allocate_stack m
    let x = new_process s.next_pid (u32 entry) top no_directory 1 1 []
    let s₁ = store (record s { locked = true; next_pid = add32 s.next_pid 1 }) fresh x
    s₂ ← insert_process_into_queue fresh s₁
    ok (s.next_pid, record s₂ { locked = s.locked }, m)

  -- The pages of one segment from page `i` on: two more than `p_memsz / PAGE_SIZE`.
  pub map_segment : (left i vaddr : ℕ) → PageDirectoryPtr → M → Run M
  map_segment zero i vaddr dir m = ok m
  map_segment (suc left) i vaddr dir m = do
    (phys, m) ← ops.allocate_physical_memory_block m
    m ← ops.map_virtual_pages phys (u32 (vaddr + i * page_size)) 1 m
    m ← ops.map_virtual_pages_in phys (u32 (vaddr + i * page_size)) 1 dir m
    map_segment left (i + 1) vaddr dir m

  -- The body of the loop over the program headers. `elf` is the address of the file.
  pub load_segment : Scheduler → (elf : ℕ) → PageDirectoryPtr → ProgramHeader → M → Run M
  load_segment s elf dir ph m = do
    let m₀ = ops.load_kernel_page_directory m
    m ← map_segment (ph.p_memsz / page_size + 2) 0 ph.p_vaddr dir m₀
    m ← ops.clear_bytes ph.p_vaddr ph.p_memsz m
    m ← ops.copy_bytes ph.p_vaddr (u32 (elf + ph.p_offset)) ph.p_filesz m
    current ← load s s.current
    ok (ops.switch_page_directory current.page_directory.page_directory_phys m)

  -- The loop at header `i`; segments of size 0 are skipped. The kept headers are returned in order.
  pub load_segments :
      (header_at : ℕ → ProgramHeader)
      → Scheduler
      → (elf : ℕ) → PageDirectoryPtr
      → ElfHeader
      → (left i : ℕ) → M
      → Run (List ProgramHeader × M)
  load_segments header_at s elf dir hdr zero i m = ok ([], m)
  load_segments header_at s elf dir hdr (suc left) i m =
      let ph = header_at (u32 (elf + hdr.e_phoff + i * hdr.e_phentsize)) in
      let skipped = load_segments header_at s elf dir hdr left (i + 1) m in
      let loaded = (do
        m ← load_segment s elf dir ph m
        (phs, m) ← load_segments header_at s elf dir hdr left (i + 1) m
        ok (ph ∷ phs, m)) in
      if ph.p_memsz == 0 then skipped else loaded

  unfoldable pub load_elf :
      (header_at : ℕ → ProgramHeader) (header : ElfHeader) (fresh elf : ℕ)
      → Scheduler
      → M
      → Run (ℕ × Scheduler × M)
  load_elf header_at header fresh elf s m = do
    (dir, m) ← ops.create_address_space m
    (phs, m) ← load_segments header_at s elf dir header header.e_phnum 0 m
    (top, m) ← allocate_stack m
    let x = new_process s.next_pid header.e_entry top dir 0 15 phs
    let s₁ = store (record s { locked = true; next_pid = add32 s.next_pid 1 }) fresh x
    s₂ ← insert_process_into_queue fresh s₁
    ok (s.next_pid, record s₂ { locked = s.locked }, m)

  pub close_all : List Ptr → M → Run M
  close_all [] m = ok m
  close_all (fd ∷ fds) m = do m ← if fd == 0 then ok m else ops.close_node fd m; close_all fds m

  unfoldable pub free_segment : (left i vaddr : ℕ) → M → Run M
  free_segment zero i vaddr m = ok m
  free_segment (suc left) i vaddr m = do
    m ←
        ops.free_physical_memory_block
          (ops.virtual_to_physical_address (u32 (vaddr + i * page_size)) m) m
    free_segment left (i + 1) vaddr m

  pub free_segments : List ProgramHeader → M → Run M
  free_segments [] m = ok m
  free_segments (ph ∷ phs) m = do
    m ← free_segment (ph.p_memsz / page_size + 2) 0 ph.p_vaddr m
    free_segments phs m

  -- `process->next` is read before `kfree`, and the next process after it.
  unfoldable pub end_process : (fuel : ℕ) → Ptr → Scheduler → M → Run (Scheduler × M)
  end_process fuel p s m = do
    s₁ ← remove_process_from_queue fuel p s
    x ← load s₁ p
    m ← close_all x.file_descriptors m
    m ← ops.clear_list x.file_descriptors m
    m ← free_segments x.program_headers m
    s₂ ← switch_to x.next (record s₁ { procs = write s₁.procs p none })
    ok (s₂, m)
