-- ===== src/Syscall/Processes.antt =====
-- The system calls `SysExit`, `SysExec`, `SysForkExec`, `SysGrantPty` and `SysUptime`.
use literate_os.Common.{
  ℕ, ◌/◌, ◌≡◌, ◌≢◌, refl, true, false, some, List, ◌==◌, if◌then◌else◌, length, set, arith,
}
use literate_os.Common.Bits.{u32}
use literate_os.Common.Run.{Run, ok, fault, ◌>>=◌}
use literate_os.Scheduler.{Ptr, Process, Scheduler, load, store, find_process_by_pid}
use literate_os.Scheduler.Ring.{load-ok}
use literate_os.Scheduler.Lifecycle.{MemoryOps, end_process}
use literate_os.Interrupts.Timer.{Timer}
use literate_os.Syscall.{Regs, Kernel}
use literate_os.Syscall.Files.{FileSystem, exec_node, write_word}

-- `load_file` is the reading of the node and `Scheduler::LoadELF` of what was read, `clear_list` the clearing
-- of a list of descriptors, whose nodes are in memory.
module _ {Name : Type 0} (fs : FileSystem Name) (load_file : Ptr → Scheduler → Run (ℕ × Scheduler))
    (clear_list : List Ptr → Scheduler → Run Scheduler) where
  -- `SysExec`; `SysExec2` is the same.
  unfoldable pub sys_exec : List Name → Kernel → Run (ℕ × Kernel)
  sys_exec names k =
      let node = exec_node fs names in
      let loaded = (do (pid, s) ← load_file node k.sched; ok (0, record k { sched = s })) in
      if node == 0 then ok (1, k) else loaded

  unfoldable pub sys_fork_exec : (fuel : ℕ) → List Name → Kernel → Run (ℕ × Kernel)
  sys_fork_exec fuel names k =
      let node = exec_node fs names in
      let loaded = (do
        (pid, s) ← load_file node k.sched
        p ← find_process_by_pid fuel s pid
        x ← load s p
        parent ← load s s.current
        s ← clear_list x.file_descriptors s
        ok (
          0,
          record k { sched = store s p (record x { file_descriptors = parent.file_descriptors }) },
        )) in
      if node == 0 then ok (1, k) else loaded

  -- The new process has the descriptors of its parent.
  pub sys_fork_exec-file_descriptors :
      (fuel : ℕ) (names : List Name) (k : Kernel) {pid : ℕ} {s : Scheduler} (p : Ptr)
      (x parent : Process)
      → exec_node fs names ≢ 0
      → load_file (exec_node fs names) k.sched ≡ ok (pid, s)
      → find_process_by_pid fuel s pid ≡ ok p
      → p ≢ 0
      → s.procs p ≡ some x
      → s.current ≢ 0
      → s.procs s.current ≡ some parent
      → clear_list x.file_descriptors s ≡ ok s
      → (k' : Kernel) × (sys_fork_exec fuel names k ≡ ok (0, k'))
        × (k'.sched.procs p ≡ some (record x { file_descriptors = parent.file_descriptors }))
        × ((a : Ptr) → a ≢ p → k'.sched.procs a ≡ s.procs a)
  unfolding sys_fork_exec
  sys_fork_exec-file_descriptors fuel names k {pid} {s} p x parent there loaded found nz at cnz cat
        cleared =
      let t : (exec_node fs names == 0) ≡ false = ground arith in
      let here : (p == p) ≡ true = ground arith in
      let s' = store s p (record x { file_descriptors = parent.file_descriptors }) in
      (
        record k { sched = s' },
        rw (t, loaded, found, load-ok s p x nz at, load-ok s s.current parent cnz cat, cleared),
        rw here refl,
        λ a ne. let other : (a == p) ≡ false = ground arith in rw other refl,
      )

-- `SysExit`: the end of the running process.
pub sys_exit : {M : Type 0} (ops : MemoryOps M) (fuel : ℕ) → Kernel → M → Run (ℕ × Kernel × M)
sys_exit ops fuel k m = do
  (s, m) ← end_process ops fuel k.sched.current k.sched m
  ok (0, record k { sched = s }, m)

-- Where `GrantPTY` returns, which has no defined result: `slave` is the address of the slave file.
unfoldable pub sys_grant_pty : (slave : Ptr) → Regs → Kernel → Run (ℕ × Kernel)
sys_grant_pty slave r k =
    let granted = (do
      x ← load k.sched k.sched.current
      let files = set (set (set x.file_descriptors 0 slave) 1 slave) 2 slave
      ok (
        0,
        record k {
          sched = store k.sched k.sched.current (record x { file_descriptors = files });
          words = write_word k.words r.ebx (length x.file_descriptors);
        },
      )) in
    if r.ebx == 0 then ok (1, k) else granted

-- The milliseconds divide by a thousandth of the frequency. The function has no `return`: `stale` is
-- what the caller finds as its result.
unfoldable pub sys_uptime : (stale : ℕ) → Timer → Regs → Kernel → Run (ℕ × Kernel)
sys_uptime stale t r k =
    let seconds = if r.ebx == 0 then k.words else write_word k.words r.ebx (u32 t.uptime) in
    let millis = write_word seconds r.ecx (t.ticks / (t.frequency / 1000)) in
    if r.ecx == 0
    then ok (stale, record k { words = seconds })
    else if t.frequency / 1000 == 0
    then fault
    else ok (stale, record k { words = millis })
