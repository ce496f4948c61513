-- ===== src/Layout/Descriptors.antt =====
-- The tables that the processor reads, and the headers of PCI devices: Kernel/include/arch/x86/gdt.h,
-- idt.h and pci.h.
pub mod Tables
use literate_os.Common.{ℕ, List, [], ◌∷◌}
use literate_os.Layout.{Member, field, Layout, size_of}

abbrev pub gdt_entry : Layout
gdt_entry =
    field "limit_low" 2 1
    ∷ field "base_low" 2 1
    ∷ field "access" 1 1
    ∷ field "granularity" 1 1
    ∷ field "base_high" 1 1
    ∷ []

abbrev pub gdt_ptr : Layout
gdt_ptr = field "limit" 2 1 ∷ field "base" 4 1 ∷ []

abbrev pub tss_entry : Layout
tss_entry =
    field "prevTss" 4 1
    ∷ field "esp0" 4 1
    ∷ field "ss0" 4 1
    ∷ field "esp1" 4 1
    ∷ field "ss1" 4 1
    ∷ field "esp2" 4 1
    ∷ field "cr3" 4 1
    ∷ field "eip" 4 1
    ∷ field "eflags" 4 1
    ∷ field "eax" 4 1
    ∷ field "ecx" 4 1
    ∷ field "edx" 4 1
    ∷ field "ebx" 4 1
    ∷ field "esp" 4 1
    ∷ field "ebp" 4 1
    ∷ field "esi" 4 1
    ∷ field "edi" 4 1
    ∷ field "es" 4 1
    ∷ field "cs" 4 1
    ∷ field "ss" 4 1
    ∷ field "ds" 4 1
    ∷ field "fs" 4 1
    ∷ field "gs" 4 1
    ∷ field "ldt" 4 1
    ∷ field "trap" 4 1
    ∷ field "iomap" 2 1
    ∷ []

abbrev pub idt_entry : Layout
idt_entry =
    field "base_low" 2 1
    ∷ field "sel" 2 1
    ∷ field "null" 1 1
    ∷ field "flags" 1 1
    ∷ field "base_high" 2 1
    ∷ []

abbrev pub idt_ptr : Layout
idt_ptr = field "limit" 2 1 ∷ field "base" 4 1 ∷ []

abbrev pub pci_header0 : Layout
pci_header0 =
    field "vendorID" 2 1
    ∷ field "deviceID" 2 1
    ∷ field "command" 2 1
    ∷ field "status" 2 1
    ∷ field "revisionID" 1 1
    ∷ field "progIF" 1 1
    ∷ field "subclass" 1 1
    ∷ field "clasCode" 1 1
    ∷ field "cacheLineSize" 1 1
    ∷ field "latencyTimer" 1 1
    ∷ field "headerType" 1 1
    ∷ field "BIST" 1 1
    ∷ field "baseAddress0" 4 1
    ∷ field "baseAddress1" 4 1
    ∷ field "baseAddress2" 4 1
    ∷ field "baseAddress3" 4 1
    ∷ field "baseAddress4" 4 1
    ∷ field "baseAddress5" 4 1
    ∷ field "cisPtr" 4 1
    ∷ field "subsystemVendorID" 2 1
    ∷ field "subsytemID" 2 1
    ∷ field "expansionROMBaseAddress" 4 1
    ∷ field "reserved" 1 3
    ∷ field "capabilitesPtr" 1 1
    ∷ field "reserved2" 4 1
    ∷ field "interruptLine" 1 1
    ∷ field "interruptPin" 1 1
    ∷ field "minGrant" 1 1
    ∷ field "maxLatency" 1 1
    ∷ []

abbrev pub pci_header1 : Layout
pci_header1 =
    field "vendorID" 2 1
    ∷ field "deviceID" 2 1
    ∷ field "command" 2 1
    ∷ field "status" 2 1
    ∷ field "revisionID" 1 1
    ∷ field "progIF" 1 1
    ∷ field "subclass" 1 1
    ∷ field "classCode" 1 1
    ∷ field "cacheLineSize" 1 1
    ∷ field "latencyTimer" 1 1
    ∷ field "headerType" 1 1
    ∷ field "baseAddress0" 4 1
    ∷ field "baseAddress1" 4 1
    ∷ field "primaryBusNumber" 1 1
    ∷ field "secondaryBusNumber" 1 1
    ∷ field "secondaryLatencyTimer" 1 1
    ∷ field "ioBase" 1 1
    ∷ field "ioLimit" 1 1
    ∷ field "secondaryStatus" 2 1
    ∷ field "memoryLimit" 2 1
    ∷ field "memoryBase" 2 1
    ∷ field "prefetchMemoryLimit" 2 1
    ∷ field "prefetchMemoryBase" 2 1
    ∷ field "prefetchBaseUpper" 4 1
    ∷ field "ioLimitUpper" 4 1
    ∷ field "ioBaseUpper" 2 1
    ∷ field "reserved" 2 3
    ∷ field "capabilityPointer" 1 1
    ∷ field "ramBaseAddress" 4 1
    ∷ field "romBaseAddress" 4 1
    ∷ field "bridgeControl" 2 1
    ∷ field "interruptPIN" 1 1
    ∷ field "interruptLine" 1 1
    ∷ []
