-- ===== src/Syscall.antt =====
-- System calls: Kernel/src/arch/x86/syscall.cpp.
pub mod Table
pub mod Files
pub mod Ipc
pub mod Processes
pub mod Windows
pub mod Memalloc
pub mod Info
mod Tests
use literate_os.Common.{ℕ, List}
use literate_os.Scheduler.{Scheduler}

-- `regs32_t`: the registers that system calls use.
pub record Regs : Type 0 where
  pub eax : ℕ
  pub ebx : ℕ
  pub ecx : ℕ
  pub edx : ℕ
  pub esi : ℕ

-- The scheduler, and the 32-bit words at the addresses that a caller passes.
pub record Kernel : Type 0 where
  pub sched : Scheduler
  pub words : ℕ → ℕ
