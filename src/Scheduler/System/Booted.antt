-- ===== src/Scheduler/System/Booted.antt =====
-- `Initialize` of the scheduler on the kernel's own memory, as the set-up of the hardware leaves it.
use literate_os.Memory.Paging.{Paging}
use literate_os.Common.Run.{Run}
use literate_os.Memory.Spaces.{Spaces}
use literate_os.Scheduler.{Scheduler}
