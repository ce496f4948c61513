-- ===== src/Layout/Tests.antt =====
-- Offsets and sizes of structures, and the theorems at registers of a port.
use literate_os.Common.{◌+◌, ◌*◌, ◌≤◌, ◌≡◌, refl, some, arith, get_elem?}
use literate_os.Layout.{Span, spans, size_of, offset_of}
use literate_os.Layout.Ahci.{
  fis_reg_h2d, fis_dma_setup, hba_port, hba_mem, hba_fis, hba_cmd_header, hba_prdt_entry,
  hba_cmd_tbl,
}
use literate_os.Layout.Ahci.Registers.{port_at, port_register-at}
use literate_os.Layout.Descriptors.{tss_entry, pci_header0, pci_header1}
use literate_os.Layout.Disk.{
  fat_entry, fat_lfn_entry, fat32_boot_record, fat32_fsinfo, ustar_header, gpt_header, gpt_entry,
}
use literate_os.Layout.Boot.{multiboot_info, multiboot_memory_map, elf32_hdr}

command_structures :
    (size_of hba_cmd_header ≡ 32) × (size_of hba_prdt_entry ≡ 16) × (size_of hba_cmd_tbl ≡ 144)
command_structures = (refl, refl, refl)

-- The host's message has 19 bytes, and its device register is the byte 6.
host_message : (size_of fis_reg_h2d ≡ 19) × (offset_of fis_reg_h2d 8 ≡ some 6)
host_message = (refl, refl)

-- The message that the comment puts at 0x20 is at 0x19.
received_messages : (size_of fis_dma_setup ≡ 21) × (offset_of hba_fis 2 ≡ some 0x19)
received_messages = (refl, refl)

-- `iomap`; and the registers that follow the header type of a bridge.
shortened : (offset_of tss_entry 25 ≡ some 100) × (offset_of pci_header1 11 ≡ some 15)
shortened = (refl, refl)

pci_capabilities : (size_of pci_header0 ≡ 64) × (offset_of pci_header0 23 ≡ some 0x37)
pci_capabilities = (refl, refl)

disk_sizes :
    (size_of fat_entry ≡ 32)
    × (size_of fat_lfn_entry ≡ 32)
    × (size_of fat32_boot_record ≡ 90)
    × (size_of fat32_fsinfo ≡ 514)
    × (size_of ustar_header ≡ 532)
    × (size_of gpt_header ≡ 92)
    × (size_of gpt_entry ≡ 128)
disk_sizes = (refl, refl, refl, refl, refl, refl, refl)

-- `frameBufferAddr`, an entry of the memory map, and `e_phoff`.
boot_offsets :
    (offset_of multiboot_info 22 ≡ some 82)
    × (size_of multiboot_memory_map ≡ 24)
    × (offset_of elf32_hdr 4 ≡ some 24)
boot_offsets = (refl, refl, refl)

port_register-at_example :
    (s : Span) × (get_elem? (spans 0 hba_port) 6 ≡ some s)
    × (8 * port_at 0xF0000000 3 + s.start ≡ 8 * 0xF0000298)
    × (8 * port_at 0xF0000000 3 + s.start + s.width ≤ 8 * 0xF0001100)
    × (size_of hba_mem ≡ 0x1100)
port_register-at_example = port_register-at 0xF0000000 3 6 0x18 (omega arith) refl

abbrev command : Span
command = record { start = 192; width = 32 }

abbrev status : Span
status = record { start = 256; width = 32 }
