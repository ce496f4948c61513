-- ===== src/Devices.antt =====
-- Devices: the keyboard, the mouse, the text screen, the PCI bus, the segment table, the long file
-- names of FAT32 and the command engine of AHCI.
pub mod Keyboard
pub mod Mouse
pub mod Vga
pub mod Pci
pub mod Gdt
pub mod Fat
pub mod Ahci
mod Tests
