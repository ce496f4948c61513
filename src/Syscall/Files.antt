-- ===== src/Syscall/Files.antt =====
-- The system calls on files: `SysExec` and `SysForkExec` up to the loader, `SysOpen`, `SysClose`,
-- `SysRead`, `SysWrite` and `SysLSeek`.
--
-- In `SysLSeek` the undeclared `fd` and `ret` are read as `ebx` and `esi`.
--
-- The file system's `findDir` and the node's fields are parameters, and so is `strtok`: a path is the
-- list of the names that it cuts the path into at "/". A node is its address, 0 for NULL.
pub mod Laws
use literate_os.Common.{
  ℕ, zero, suc, ◌+◌, Bool, true, false, List, [], ◌∷◌, ◌++◌, bit_and, ◌==◌, leb, ltb, ◌||◌, ◌&&◌,
  if◌then◌else◌, length, get_or,
}
use literate_os.Common.Run.{Run, ok, fault, ◌>>=◌}
use literate_os.Scheduler.{Ptr, Process, Scheduler, load, store}
use literate_os.Syscall.{Regs, Kernel}

-- `FS_NODE_DIRECTORY`.
abbrev pub fs_node_directory : ℕ
fs_node_directory = 2

pub record FileSystem (Name : Type 0) : Type 0 where
  pub root : Ptr
  pub find_dir : Ptr → Name → Ptr
  pub flags : Ptr → ℕ
  pub size : Ptr → ℕ

-- How the loop over the names of a path ends: a name that is not there, a node that is no directory
-- (the rest of the path is not looked at), or the end of the path at a directory.
pub data Walk : Type 0 where
  missing : Walk
  file : Ptr → Walk
  directory : Ptr → Walk

abbrev pub write_word : (ℕ → ℕ) → ℕ → ℕ → ℕ → ℕ
write_word words at v a = if a == at then v else words a

-- `fileDescriptors[fd]`: `get_at` returns a zeroed object out of range.
abbrev pub descriptor : Process → ℕ → Ptr
descriptor x fd = get_or x.file_descriptors fd 0

module _ {Name : Type 0} (fs : FileSystem Name) where
  unfoldable pub walk : List Name → Ptr → Walk
  walk [] current = directory current
  walk (name ∷ names) current =
      let node = fs.find_dir current name in
      let deeper = walk names node in
      if node == 0
      then missing
      else if bit_and (fs.flags node) fs_node_directory == 0
      then file node
      else deeper

  -- The node that `SysExec` and `SysForkExec` load, `none` as 0: they take a directory, too.
  unfoldable pub exec_node : List Name → Ptr
  exec_node names = elim (walk names fs.root) [
    | missing ↦ 0
    | file node ↦ node
    | directory node ↦ node
  ]

  -- The descriptor's number is the length of the list before it is added.
  pub add_descriptor : Ptr → ℕ → Kernel → Run (ℕ × Kernel)
  add_descriptor node at k = do
    x ← load k.sched k.sched.current
    let fd = length x.file_descriptors
    let x' = record x { file_descriptors = x.file_descriptors ++ node ∷ [] }
    ok (0, record k { sched = store k.sched k.sched.current x'; words = write_word k.words at fd })

  -- `is_root` is `strcmp(filepath, "/") == 0`. `stale` is what the local `fd` holds before it is set.
  pub sys_open : (is_root : Bool) → List Name → (stale : ℕ) → Regs → Kernel → Run (ℕ × Kernel)
  sys_open true names stale r k = add_descriptor fs.root r.ecx k
  sys_open false names stale r k = elim (walk names fs.root) [
    | missing ↦ ok (1, k)
    | file node ↦ add_descriptor node r.ecx k
    | directory node ↦ ok (0, record k { words = write_word k.words r.ecx stale })
  ]

  -- `close` is `fs::Close` of a node.
  pub sys_close : (close : Ptr → Kernel → Run Kernel) → Regs → Kernel → Run (ℕ × Kernel)
  sys_close close r k = do
    x ← load k.sched k.sched.current
    let node = descriptor x r.ebx
    let closed = (do k' ← close node k; ok (0, k'))
    if node == 0 then ok (2, k) else closed

  -- `write_node` is `fs::Write` of `count` bytes at an address, with the number that it returns. `fresh` is what
  -- `kmalloc` returns for the copy of the caller's bytes, and `copy` is `memcpy`, which can be a fault.
  unfoldable pub sys_write :
      (fresh : Ptr) (copy : (to from count : ℕ) → Kernel → Run Kernel)
      (write_node : Ptr → ℕ → ℕ → Kernel → Run (ℕ × Kernel))
      → Regs
      → Kernel
      → Run (ℕ × Kernel)
  sys_write fresh copy write_node r k = do
    x ← load k.sched k.sched.current
    let node = descriptor x r.ebx
    let written = (do
      k ← copy fresh r.ecx r.edx k
      (ret, k') ← write_node node fresh r.edx k
      ok (0, if r.esi == 0 then k' else record k' { words = write_word k'.words r.esi ret }))
    if node == 0 then ok (2, k) else if r.ecx == 0 || r.edx == 0 then ok (1, k) else written

  -- Only the seek to the end is implemented.
  unfoldable pub sys_lseek : Regs → Kernel → Run (ℕ × Kernel)
  sys_lseek r k = do
    x ← load k.sched k.sched.current
    let node = descriptor x r.ebx
    let at_end = record k { words = write_word k.words r.esi (fs.size node) }
    ok (
        if r.esi == 0
        then (1, k)
        else if leb (length x.file_descriptors) r.ebx || node == 0
        then (1, k)
        else if r.edx == 0 || r.edx == 1
        then (2, k)
        else if r.edx == 2
        then (0, at_end)
        else (3, k))

  -- `buffer` and `count` are not declared in the source: they are arguments here, whatever they are. `esi` is
  -- not tested. `read_node` is the node's `read` callback.
  unfoldable pub sys_read :
      (buffer count : ℕ) (read_node : Ptr → ℕ → ℕ → Kernel → Run (ℕ × Kernel))
      → Regs
      → Kernel
      → Run (ℕ × Kernel)
  sys_read buffer count read_node r k = do
    x ← load k.sched k.sched.current
    let node = descriptor x r.ebx
    let read = (do
      (ret, k') ← read_node node buffer count k
      ok (0, record k' { words = write_word k'.words r.esi ret }))
    if node == 0 then ok (1, k) else if buffer == 0 then ok (1, k) else read
