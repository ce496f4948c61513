-- ===== src/Hal/Tests.antt =====
-- The set-up of a machine with 64 MiB and a screen of 1024 by 768 pixels.
use literate_os.Common.{ℕ, [], ◌+◌, ◌*◌, ◌≡◌, some, false, arith}
use literate_os.Common.Run.{fault}
use literate_os.Devices.Pci.Registry.{Device}
use literate_os.Interrupts.{null_gate}
use literate_os.Memory.Physical.{MemoryMap, bitmap_dwords, all_ones}
use literate_os.Hal.{MultibootInfo, VideoMode, Hal, Outside, memory_info, init_core}
use literate_os.Hal.Laws.{init_core-fault}

abbrev boot_info : MultibootInfo
boot_info = record {
  memory_lo = 640;
  memory_hi = 65536;
  mods_addr = 0x20000;
  mmap_length = 24;
  mmap_addr = 0x2000;
  framebuffer_addr = 0xFD000000;
  framebuffer_pitch = 4096;
  framebuffer_width = 1024;
  framebuffer_height = 768;
  framebuffer_bpp = 32;
}

abbrev no_mode : VideoMode
no_mode = record { width = 0; height = 0; bpp = 0; pitch = 0; address = 0 }

abbrev unset : Device
unset = record {
  vendor = 0;
  device_id = 0;
  vendor_id = 0;
  device_name = 0;
  bus = 0;
  slot = 0;
  class_code = 0;
  subclass = 0;
  generic = false;
}

abbrev switched_on : Hal
switched_on = record {
  mem_info = memory_info boot_info;
  video_mode = no_mode;
  multiboot_info = boot_info;
  serial = record { time = 0; sent = [] };
  gdt = λ n. record { limit_low = 0; base_low = 0; access = 0; granularity = 0; base_high = 0 };
  idt = record { gates = λ n. null_gate; handlers = λ n. 0; outs = [] };
  paging = record { directory = λ i. 0; tables = λ i j. 0; tables_at = 0xC0100000 };
  physical = record { bitmap = all_ones bitmap_dwords; used = 0; max_blocks = 0 };
  timer = record { frequency = 0; ticks = 0; uptime = 0 };
  devices = [];
  video = [];
}

abbrev entries : ℕ → MemoryMap
entries at = record { size = 20; base = 0x100000; length = 0x1000; kind = 1 }

-- No disk controller, no PCI device, and a region marker that leaves the bitmap alone.
abbrev machine : Outside
machine = record {
  gdt_initialize = λ gdt. gdt;
  ahci_init = λ k. (1, k);
  mark_memory_region_free = λ base size s. some s;
  entry_at = entries;
  stub = λ n. 0xC0101000 + 16 * n;
  page_fault_handler = 0xC0102000;
  timer_handler = 0xC0103000;
  kernel_page_tables = 0xC0200000;
  config = λ address. 0xFFFFFFFF;
  lost_header = λ bus slot. record { header_type = 0; class_code = 0; subclass = 0 };
  type1_header = λ bus slot. record { header_type = 1; class_code = 0; subclass = 0 };
  stale_device = unset;
  device_name = 0;
}

-- A memory map at 0x9000 is behind the three pages that are present.
abbrev far : MultibootInfo
far = record boot_info { mmap_addr = 0x9000 }

init_core-fault_example : init_core machine 1000 far switched_on ≡ fault
init_core-fault_example =
    init_core-fault machine 1000 far switched_on (omega arith) (omega arith) (omega arith)
      (omega arith)
