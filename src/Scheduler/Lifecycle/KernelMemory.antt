-- ===== src/Scheduler/Lifecycle/KernelMemory.antt =====
-- The interface `MemoryOps`, filled by the kernel's own allocator and page tables, and the stack that
-- `CreateProcess` allocates with them.
use literate_os.Common.{List, ℕ, zero, suc, ◌+◌, ◌*◌, ◌%◌, ◌≤◌, ◌≡◌, refl, subst, ◌∙◌, some, arith}
use literate_os.Common.Bits.{u32}
use literate_os.Common.Run.{Run, ok, ◌>>=◌, or_fault}
use literate_os.Memory.Physical.{free_physical_memory_block}
use literate_os.Memory.Physical.Alloc.{HasBitmap}
use literate_os.Memory.Paging.{Paging, page_size, map_page, map_virtual_pages, map_virtual_pages_in}
use literate_os.Memory.Paging.Allocate.{kernel_allocate_virtual_pages}
use literate_os.Memory.Paging.Allocate.Laws.{kernel_allocate_virtual_pages-aligned}
use literate_os.Memory.Spaces.{
  Spaces, set_at, allocate_block, allocate_kernel_pages, map_pages_at, translate_address,
  create_address_space, load_kernel_page_directory, switch_page_directory,
}
use literate_os.Memory.Spaces.Backing.{
  Backed, Backed-nil, Backed-cons, allocate_block-total, Step-bitmap, at-set_at,
  allocate_kernel_pages-some, map_virtual_pages-one,
}
use literate_os.Scheduler.{Ptr}
use literate_os.Scheduler.Lifecycle.{MemoryOps, map_stack, allocate_stack}

-- The bytes of memory and the callbacks of file nodes, and the nodes of lists, are parameters.
module _ (clear_bytes : ℕ → ℕ → Spaces → Run Spaces) (copy_bytes : ℕ → ℕ → ℕ → Spaces → Run Spaces)
    (close_node : Ptr → Spaces → Run Spaces) (clear_list : List Ptr → Spaces → Run Spaces) where
  unfoldable pub kernel_memory : MemoryOps Spaces
  kernel_memory = record {
    kernel_allocate_virtual_pages = allocate_kernel_pages;
    allocate_physical_memory_block = allocate_block;
    free_physical_memory_block = λ addr m. (do
      s ← or_fault (free_physical_memory_block addr m.physical)
      ok (record m { physical = s }));
    map_virtual_pages = λ phys virt amount m. ok (map_pages_at phys virt amount m);
    map_virtual_pages_in = λ phys virt amount dir m.
        let mapped =
          map_virtual_pages_in phys virt amount (m.at m.current) (m.at dir.page_directory) in
        ok (set_at dir.page_directory mapped.1 m);
    virtual_to_physical_address = translate_address;
    create_address_space = create_address_space;
    load_kernel_page_directory = load_kernel_page_directory;
    switch_page_directory = switch_page_directory;
    clear_bytes = clear_bytes;
    copy_bytes = copy_bytes;
    close_node = close_node;
    clear_list = clear_list;
  }

  map_stack-Backed :
      (left i stack : ℕ) (m : Spaces)
      → stack % 4096 ≡ 0
      → left ≤ 1024
      → HasBitmap m.physical
      → (m' : Spaces) × (map_stack kernel_memory left i stack m ≡ ok m')
        × (m'.current ≡ m.current)
        × Backed stack left i m.physical (m.at m.current) m'.physical (m'.at m.current)
  unfolding map_stack kernel_memory map_pages_at
  map_stack-Backed zero i stack m aligned few len =
      (m, refl, refl, Backed-nil stack i m.physical (m.at m.current) len)
  map_stack-Backed (suc left) i stack m aligned few len =
      let (phys, s, run, step) = allocate_block-total m len in
      let at = u32 (stack + i * page_size) in
      let same : u32 (stack + page_size * i) ≡ at = omega arith in
      let d = (map_virtual_pages phys at 1 (m.at m.current)).1 in
      let next : Spaces = set_at m.current d (record m { physical = s }) in
      let (m', rest, stays, backed) =
        map_stack-Backed left (i + 1) stack next aligned (omega arith) (Step-bitmap len step) in
      let (f, one) = map_virtual_pages-one phys at (m.at m.current) in
      let backed' : Backed stack left (i + 1) s (map_page f phys at (m.at m.current)) m'.physical
          (m'.at m.current) =
        subst (λ t. Backed stack left (i + 1) s t m'.physical (m'.at m.current))
          (at-set_at m.current d (record m { physical = s }) ∙ one) backed in
      (
        m',
        rw (run, same) rest,
        stays,
        Backed-cons f stack left i (m.at m.current) phys aligned few len step backed',
      )

  -- The stack of a new process: if the search finds four pages at `base`, the top of the stack is 16384
  -- bytes above it, and each of the four pages is translated to its frame, less bit 31 of it. The frame is 0
  -- only if every block is taken afterwards or block 0 was free before, and otherwise a block that was free
  -- before and is taken now; pages with a block have different ones, no block was freed, and a page whose
  -- index is none of theirs is translated in the current directory as the search left it.
  pub allocate_stack-Backed :
      (m : Spaces) (base : ℕ) (d : Paging)
      → HasBitmap m.physical
      → kernel_allocate_virtual_pages 4 (m.at m.kernel) ≡ some (base, d)
      → (m' : Spaces) × (allocate_stack kernel_memory m ≡ ok (u32 (base + 16384), m'))
        × Backed base 4 0 m.physical
            ((set_at m.kernel d m).at m.current)
            m'.physical
            (m'.at m.current)
  unfolding allocate_stack kernel_memory
  allocate_stack-Backed m base d len found =
      let aligned = kernel_allocate_virtual_pages-aligned 4 base (m.at m.kernel) found in
      let (m', run, stays, backed) =
        map_stack-Backed 4 0 base (set_at m.kernel d m) aligned (omega arith) len in
      (m', rw (allocate_kernel_pages-some 4 m found, run), backed)
