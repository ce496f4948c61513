-- ===== src/Hal/Laws.antt =====
-- The state that the set-up of the hardware leaves behind.
use literate_os.Memory.Paging.Allocate.{is_present}
use literate_os.Common.{
  ◌≤◌, none, false, ℕ, ◌+◌, ◌*◌, ◌/◌, ◌^◌, ◌<◌, ◌≡◌, refl, ap, sym, subst, some, ◌==◌,
  if◌then◌else◌, arith, ◌++◌,
}
use literate_os.Common.Bits.{u32}
use literate_os.Common.Run.{ok, fault, or_fault, >>=-eq, >>=-eq-ok, >>=-fault}
use literate_os.Interrupts
use literate_os.Interrupts.Timer.{Timer}
use literate_os.Memory.Paging.{Paging, page_size, map_virtual_pages, initialize_virtual_memory}
use literate_os.Memory.Paging.Allocate.InOrder.{
  HasFirst, kernel_allocate-first, map_virtual_pages-HasFirst, initialize_virtual_memory-HasFirst,
}
use literate_os.Memory.Physical.{sizeof_memory_map, allocate_physical_memory_block}
use literate_os.Memory.Physical.Init.{initialize-unreadable}
use literate_os.Hal.{
  Hal, MultibootInfo, Outside, map_to_kernel, read_entry, memory_info, init_core, init_video,
  video_pages, mode_at, shown,
}

-- Pages for the kernel lie behind the last present page.
map_to_kernel-first :
    (phys amount last last' : ℕ) (d : Paging)
    → HasFirst last d
    → last' ≡ last + amount
    → last' + 1 < 2 ^ 20
    → (d' : Paging) × (map_to_kernel phys amount d ≡ ok ((last + 1) * page_size, d'))
      × HasFirst last' d'
unfolding map_to_kernel
map_to_kernel-first phys amount last last' d first sum room =
    let (d', allocated, first') = kernel_allocate-first amount last d first (omega arith) in
    (
      (map_virtual_pages phys ((last + 1) * page_size) amount d').1,
      >>=-eq-ok (λ r. ok (r.0, (map_virtual_pages phys (r.0) amount (r.1)).1))
          (ap or_fault allocated) refl,
      subst (λ (n : ℕ). HasFirst n (map_virtual_pages phys ((last + 1) * page_size) amount d').1)
          (sym sum)
          (map_virtual_pages-HasFirst phys (last + 1) amount (last + amount) d' first' (omega arith)
            (omega arith)),
    )

-- The state that `InitCore` hands to `AHCI::Init`.
pub record IsSetUp (o : Outside) (mb : MultibootInfo) (k : Hal) : Type 0 where
  pub handlers :
      (n : ℕ)
      → k.idt.handlers n
        ≡ (if n == 32 then o.timer_handler else (if n == 14 then o.page_fault_handler else 0))
  pub frequency : k.timer.frequency ≡ 1200
  pub pages : HasFirst (mb.mmap_length / page_size + 2) k.paging
  pub block_zero : allocate_physical_memory_block k.physical ≡ some (0, k.physical)
  pub memory_map : k.mem_info.mem_map ≡ mb.mmap_addr
  pub boot_info : k.multiboot_info ≡ mb

-- The state after `InitVideo`: its pages lie behind the ones that were present, and the screen is told
-- of a mode there.
pub init_video_lem :
    (last last' : ℕ) (k : Hal)
    → HasFirst last k.paging
    → last' ≡ last + video_pages k.multiboot_info
    → last' + 1 < 2 ^ 20
    → (k' : Hal) × (init_video k ≡ ok k')
      × HasFirst last' k'.paging
      × (k'.video_mode ≡ mode_at k.multiboot_info ((last + 1) * page_size))
      × (k'.video ≡ k.video ++ shown (mode_at k.multiboot_info ((last + 1) * page_size)))
unfolding init_video
init_video_lem last last' k first sum room =
    let (d', mapped, first') =
      map_to_kernel-first (u32 k.multiboot_info.framebuffer_addr) (video_pages k.multiboot_info)
        last last' k.paging first sum room in
    (_, >>=-eq-ok _ mapped refl, first', refl, refl)

-- The end of the memory map, as the code takes it.
abbrev pub map_end : MultibootInfo → ℕ
map_end mb = u32 (mb.mmap_addr + mb.mmap_length * sizeof_memory_map)

-- Behind the page of the boot modules no page is present.
abbrev pub present_end : MultibootInfo → ℕ
present_end mb = (mb.mmap_length / page_size + 3) * page_size

read_entry-behind :
    (o : Outside) (last at : ℕ) (d : Paging)
    → HasFirst last d
    → last < at / page_size
    → read_entry o d at ≡ none
unfolding read_entry
read_entry-behind o last at d first behind =
    let absent : (is_present d (at / page_size) == 1) ≡ false =
      ground (arith, first.behind (at / page_size) behind) in
    rw absent

-- The pages of the memory map and of the boot modules.
map_both :
    (o : Outside) (mb : MultibootInfo)
    → mb.mmap_length < 2 ^ 31
    → (d₁ d₂ : Paging) × (map_to_kernel mb.mmap_addr
          (mb.mmap_length / page_size + 1)
          (initialize_virtual_memory o.kernel_page_tables)
        ≡ ok (1 * page_size, d₁))
      × (map_to_kernel mb.mods_addr 1 d₁
          ≡ ok ((mb.mmap_length / page_size + 1 + 1) * page_size, d₂))
      × HasFirst (mb.mmap_length / page_size + 2) d₂
map_both o mb short =
    let entries = mb.mmap_length / page_size + 1 in
    let (d₁, mapped, first₁) =
      map_to_kernel-first mb.mmap_addr entries 0 entries
        (initialize_virtual_memory o.kernel_page_tables)
        (initialize_virtual_memory-HasFirst o.kernel_page_tables) (omega arith) (omega arith) in
    let (d₂, modules, first₂) =
      map_to_kernel-first mb.mods_addr 1 entries (mb.mmap_length / page_size + 2) d₁ first₁
        (omega arith) (omega arith) in
    (d₁, d₂, mapped, modules, first₂)

-- `InitCore` reads the memory map at its physical address, which it has not mapped: a map that is not empty,
-- shorter than 2 ^ 31, and lies behind the few pages that are present is a page fault.
pub init_core-fault :
    (o : Outside) (fuel : ℕ) (mb : MultibootInfo) (k : Hal)
    → mb.mmap_length < 2 ^ 31
    → 0 < fuel
    → mb.mmap_addr < map_end mb
    → present_end mb ≤ mb.mmap_addr
    → init_core o fuel mb k ≡ fault
unfolding init_core
init_core-fault o fuel mb k short pos some_map behind =
    let (d₁, d₂, mapped, modules, first₂) = map_both o mb short in
    let unread =
      read_entry-behind o (mb.mmap_length / page_size + 2) mb.mmap_addr d₂ first₂ (omega arith) in
    let stopped =
      initialize-unreadable o.mark_memory_region_free (read_entry o d₂) fuel (memory_info mb)
        k.physical pos some_map unread in
    >>=-eq _ mapped (>>=-eq _ modules (>>=-fault _ (ap or_fault stopped)))
