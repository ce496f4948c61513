-- ===== src/Machine.antt =====
-- Code next to the processor: block copies (Copy), the vendor's name (Cpuid) and the serial port (Serial).
pub mod Copy
pub mod Cpuid
pub mod Serial
mod Tests
