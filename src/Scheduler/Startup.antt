-- ===== src/Scheduler/Startup.antt =====
-- `Initialize` of Kernel/src/arch/x86/scheduler.cpp: the idle process, and the first switch.
use literate_os.Common.{ℕ, true, false, []}
use literate_os.Common.Run.{Run, ok, ◌>>=◌}
use literate_os.Scheduler.{Process, Scheduler, load, store}
use literate_os.Scheduler.Tick.{switched}
use literate_os.Scheduler.Lifecycle.{MemoryOps, create_process}

abbrev pub with_directory : ℕ → Process → Process
with_directory phys x = record x {
  page_directory = record x.page_directory { page_directory_phys = phys };
}

module _ {M : Type 0} (ops : MemoryOps M) where
  -- `fresh` is what `kmalloc` returns, `idle` the address of `IdleProc`, and `kernel_directory` the
  -- value of `GetKernelPageDirectory`.
  unfoldable pub initialize :
      (fresh idle kernel_directory : ℕ) → Scheduler → M → Run (Scheduler × M)
  initialize fresh idle kernel_directory s m = do
    (pid, s, m) ← create_process ops fresh idle (record s { locked = true; handles = [] }) m
    x ← load s s.current
    let y = with_directory kernel_directory x
    let s' = store s s.current y
    ok (record s' { locked = false; cpu = switched y s.cpu }, m)
