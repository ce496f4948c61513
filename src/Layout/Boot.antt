-- ===== src/Layout/Boot.antt =====
-- What the boot loader hands over, and the headers of ELF files, which need no padding: the structures
-- of Kernel/include/mischdr.h and Kernel/include/arch/x86/elf.h.
use literate_os.Common.{[], ◌∷◌}
use literate_os.Layout.{field, Layout}

abbrev pub multiboot_info : Layout
multiboot_info =
    field "flags" 4 1
    ∷ field "memoryLo" 4 1
    ∷ field "memoryHi" 4 1
    ∷ field "bootDevice" 4 1
    ∷ field "cmdLine" 4 1
    ∷ field "modsCount" 4 1
    ∷ field "modsAddr" 4 1
    ∷ field "num" 4 1
    ∷ field "size" 4 1
    ∷ field "addr" 4 1
    ∷ field "shndx" 4 1
    ∷ field "mmapLength" 4 1
    ∷ field "mmapAddr" 4 1
    ∷ field "drivesLength" 4 1
    ∷ field "configTable" 4 1
    ∷ field "bootloaderName" 4 1
    ∷ field "apmTable" 4 1
    ∷ field "vbeControlInfo" 4 1
    ∷ field "vbeModeInfo" 4 1
    ∷ field "vbeMode" 2 1
    ∷ field "vbeInterfaceSeg" 2 1
    ∷ field "vbeInterfaceLen" 2 1
    ∷ field "frameBufferAddr" 8 1
    ∷ field "frameBufferPitch" 4 1
    ∷ field "frameBufferWidth" 4 1
    ∷ field "frameBufferHeight" 4 1
    ∷ field "framBufferBpp" 1 1
    ∷ field "frameBufferType" 1 1
    ∷ []

abbrev pub multiboot_memory_map : Layout
multiboot_memory_map =
    field "size" 4 1 ∷ field "base" 8 1 ∷ field "length" 8 1 ∷ field "type" 4 1 ∷ []

abbrev pub elf32_hdr : Layout
elf32_hdr =
    field "e_ident" 1 16
    ∷ field "e_type" 2 1
    ∷ field "e_machine" 2 1
    ∷ field "version" 4 1
    ∷ field "e_phoff" 4 1
    ∷ field "e_flags" 4 1
    ∷ field "eh_size" 4 1
    ∷ field "e_phentsize" 2 1
    ∷ field "p_phnum" 2 1
    ∷ field "e_shnum" 2 1
    ∷ field "e_shsrndx" 2 1
    ∷ []

abbrev pub elf32_section_header : Layout
elf32_section_header =
    field "sh_name" 4 1
    ∷ field "sh_type" 4 1
    ∷ field "sh_flags" 4 1
    ∷ field "sh_addr" 4 1
    ∷ field "sh_offset" 4 1
    ∷ field "sh_size" 4 1
    ∷ field "sh_link" 4 1
    ∷ field "sh_info" 4 1
    ∷ field "sh_addralign" 4 1
    ∷ field "sh_entsize" 4 1
    ∷ []

abbrev pub elf32_symbol : Layout
elf32_symbol =
    field "st_name" 4 1
    ∷ field "st_value" 4 1
    ∷ field "st_size" 4 1
    ∷ field "st_info" 1 1
    ∷ field "st_other" 1 1
    ∷ field "st_shndx" 2 1
    ∷ []

abbrev pub elf32_program_header : Layout
elf32_program_header =
    field "p_type" 4 1
    ∷ field "p_offset" 4 1
    ∷ field "p_vaddr" 4 1
    ∷ field "p_paddr" 4 1
    ∷ field "p_filesz" 4 1
    ∷ field "p_memsz" 4 1
    ∷ field "p_flags" 4 1
    ∷ field "p_align" 4 1
    ∷ []
