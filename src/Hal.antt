-- ===== src/Hal.antt =====
-- The set-up of the hardware: Kernel/src/arch/x86/hal.cpp and hal.h, with the structures of
-- Kernel/include/mischdr.h that it reads and fills.
--
-- The messages to the log are left out. `fault` stands for a page fault on the memory map, and for the endless loop of an allocation for
-- which no pages are left.
mod Laws
mod Tests
use literate_os.Common.{
  ℕ, ◌+◌, ◌*◌, ◌/◌, List, [], ◌∷◌, ◌++◌, Option, none, some, ◌==◌, ◌&&◌, if◌then◌else◌,
}
use literate_os.Common.Bits.{u32}
use literate_os.Common.Run.{Run, ok, or_fault, ◌>>=◌}
use literate_os.Machine.Serial.{Serial, initialize_serial}
use literate_os.Devices.Gdt.{GdtEntry}
use literate_os.Devices.Pci.Registry.{Device}
use literate_os.Devices.Pci.Scan
use literate_os.Interrupts
use literate_os.Interrupts.{Idt, register_interrupt_handler}
use literate_os.Interrupts.Timer.{Timer, initialize_timer}
use literate_os.Memory.Paging.{Paging, page_size, map_virtual_pages, initialize_virtual_memory}
use literate_os.Memory.Paging.Allocate.{is_present, kernel_allocate_virtual_pages}
use literate_os.Memory.Physical.{Physical, MemoryMap, MemoryInfo, initialize_physical_allocator}

-- The fields of `multiboot_info_t` that the set-up reads.
pub record MultibootInfo : Type 0 where
  pub memory_lo : ℕ
  pub memory_hi : ℕ
  pub mods_addr : ℕ
  pub mmap_length : ℕ
  pub mmap_addr : ℕ
  pub framebuffer_addr : ℕ
  pub framebuffer_pitch : ℕ
  pub framebuffer_width : ℕ
  pub framebuffer_height : ℕ
  pub framebuffer_bpp : ℕ

-- `video_mode_t`.
pub record VideoMode : Type 0 where
  pub width : ℕ
  pub height : ℕ
  pub bpp : ℕ
  pub pitch : ℕ
  pub address : ℕ

-- The calls of functions of `Video`, which the source declares and does not define.
pub data VideoCall : Type 0 where
  set_mode : VideoMode → VideoCall
  draw_rect : (x y width height r g b : ℕ) → VideoCall

-- The globals of `HAL`, and the states of the parts that it sets up.
pub record Hal : Type 0 where
  pub mem_info : MemoryInfo
  pub video_mode : VideoMode
  pub multiboot_info : MultibootInfo
  pub serial : Serial
  pub gdt : ℕ → GdtEntry
  pub idt : Idt
  pub paging : Paging
  pub physical : Physical
  pub timer : Timer
  pub devices : List Device
  pub video : List VideoCall

-- What the set-up uses and the source does not define: functions, the addresses that the linker
-- gives, the memory that the boot loader filled, and the answers of the PCI bus.
pub record Outside : Type 0 where
  pub gdt_initialize : (ℕ → GdtEntry) → ℕ → GdtEntry
  pub ahci_init : Hal → ℕ × Hal
  pub mark_memory_region_free : ℕ → ℕ → Physical → Option Physical
  pub entry_at : ℕ → MemoryMap
  pub stub : ℕ → ℕ
  pub page_fault_handler : ℕ
  pub timer_handler : ℕ
  pub kernel_page_tables : ℕ
  pub config : ℕ → ℕ
  pub lost_header : (bus slot : ℕ) → Scan.Header
  pub type1_header : (bus slot : ℕ) → Scan.Header
  pub stale_device : Device
  pub device_name : ℕ

-- An entry of the memory map, whose first and last bytes both have to lie in present pages.
pub read_entry : Outside → Paging → (at : ℕ) → Option MemoryMap
read_entry o d at =
    if is_present d (at / page_size) == 1 && is_present d ((at + 23) / page_size) == 1
    then some (o.entry_at at)
    else none

-- `KernelAllocateVirtualPages`, and `MapVirtualPages` of the pages that it gives out.
pub map_to_kernel : (phys amount : ℕ) → Paging → Run (ℕ × Paging)
map_to_kernel phys amount d = do
  r ← or_fault (kernel_allocate_virtual_pages amount d)
  ok (r.0, (map_virtual_pages phys (r.0) amount (r.1)).1)

-- `mem_info`: the memory map at the address that the boot loader gave.
abbrev pub memory_info : MultibootInfo → MemoryInfo
memory_info mb = record {
  memory_low = mb.memory_lo;
  memory_high = mb.memory_hi;
  mem_map = mb.mmap_addr;
  memory_map_len = mb.mmap_length;
}

-- `InitCore`; the value of `AHCI::Init` only chooses a message. `fuel` bounds the loop over the memory map.
pub init_core : Outside → (fuel : ℕ) → MultibootInfo → Hal → Run Hal
unfolding map_to_kernel read_entry
init_core o fuel mb k =
    let idt =
      register_interrupt_handler 14 o.page_fault_handler (Interrupts.initialize o.stub k.idt) in
    do
      r ←
          map_to_kernel mb.mmap_addr (mb.mmap_length / page_size + 1)
            (initialize_virtual_memory o.kernel_page_tables)
      m ← map_to_kernel mb.mods_addr 1 (r.1)
      physical ← or_fault (
          initialize_physical_allocator o.mark_memory_region_free (read_entry o (m.1)) fuel
            (memory_info mb) k.physical)
      t ← initialize_timer o.timer_handler 1200 k.timer idt
      devices ← Scan.init o.config o.lost_header o.type1_header o.stale_device o.device_name
      ok (
          (o.ahci_init (record k {
            mem_info = memory_info mb;
            multiboot_info = mb;
            serial = initialize_serial k.serial;
            gdt = o.gdt_initialize k.gdt;
            idt = t.1;
            paging = m.1;
            physical = physical;
            timer = t.0;
            devices = devices;
          })).1)

-- The pages of the frame buffer.
abbrev pub video_pages : MultibootInfo → ℕ
video_pages mb = u32 (mb.framebuffer_height * mb.framebuffer_pitch) / page_size + 1

-- `videoMode`, with the frame buffer at an address.
abbrev pub mode_at : MultibootInfo → (address : ℕ) → VideoMode
mode_at mb address = record {
  width = mb.framebuffer_width;
  height = mb.framebuffer_height;
  bpp = mb.framebuffer_bpp;
  pitch = mb.framebuffer_pitch;
  address = address;
}

-- What `Video` is told about a mode.
abbrev pub shown : VideoMode → List VideoCall
shown mode = set_mode mode ∷ draw_rect 0 0 mode.width mode.height 48 48 48 ∷ []

pub init_video : Hal → Run Hal
unfolding map_to_kernel
init_video k = do
  r ← map_to_kernel (u32 k.multiboot_info.framebuffer_addr) (video_pages k.multiboot_info) k.paging
  ok (record k {
    paging = r.1;
    video_mode = mode_at k.multiboot_info (r.0);
    video = k.video ++ shown (mode_at k.multiboot_info (r.0));
  })

-- `InitExtra` is empty.
pub init : Outside → (fuel : ℕ) → MultibootInfo → Hal → Run Hal
unfolding init_core init_video
init o fuel mb k = do k ← init_core o fuel mb k; init_video k
