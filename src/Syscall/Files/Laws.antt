-- ===== src/Syscall/Files/Laws.antt =====
-- Paths and descriptors.
use literate_os.Common.{
  ℕ, ◌<◌, ◌≡◌, ◌∙◌, ap, ◌≢◌, Bool, true, false, some, List, [], ◌∷◌, ◌++◌, ◌==◌, if◌then◌else◌,
  arith, length, get_or-append_left, get_or-append_last,
}
use literate_os.Common.Run.{Run, ok, ◌>>=◌}
use literate_os.Scheduler.{Ptr, Process, store}
use literate_os.Scheduler.Ring.{load-ok}
use literate_os.Syscall.{Regs, Kernel}
use literate_os.Syscall.Files.{
  FileSystem, file, directory, write_word, descriptor, walk, add_descriptor, sys_open, sys_close,
  sys_write,
}

-- The running process of a kernel state.
pub record Runs (k : Kernel) (x : Process) : Type 0 where
  pub current_set : k.sched.current ≢ 0
  pub current_at : k.sched.procs k.sched.current ≡ some x

-- The result of a callback, stored at `esi`.
abbrev pub stored : Regs → (ℕ × Kernel) → Run (ℕ × Kernel)
stored s (ret, k) = ok (0, record k { words = write_word k.words s.esi ret })

module _ {Name : Type 0} (fs : FileSystem Name) where
  -- The walk along a path stops at the first node that is no directory: names behind it are ignored.
  pub walk-append :
      (names more : List Name) (from node : Ptr)
      → walk fs names from ≡ file node
      → walk fs (names ++ more) from ≡ file node
  unfolding walk
  walk-append [] more from node e = absurd (cc e)
  walk-append (name ∷ names) more from node e =
      ground (arith, walk-append names more (fs.find_dir from name) node)

  sys_open-eq-add_descriptor :
      (is_root : Bool) (names : List Name) (stale : ℕ) (r : Regs) (k : Kernel) (node : Ptr)
      → (if is_root then file fs.root else walk fs names fs.root) ≡ file node
      → sys_open fs is_root names stale r k ≡ add_descriptor fs node r.ecx k
  unfolding sys_open
  sys_open-eq-add_descriptor true names stale r k node e =
      let same : fs.root ≡ node = cc in ap (λ n. add_descriptor fs n r.ecx k) same
  sys_open-eq-add_descriptor false names stale r k node e = rw (e, sys_open)

  -- `SysOpen` by a running process of a path that leads to a file, or of "/", returns 0; the word at `ecx` is the
  -- new descriptor, the number of the older ones. The process still runs, the new descriptor stands for the
  -- node, and the older descriptors stand for what they stood for.
  pub sys_open-descriptor :
      (is_root : Bool) (names : List Name) (stale : ℕ) (r : Regs) (k : Kernel) (x : Process)
      (node : Ptr)
      → Runs k x
      → (if is_root then file fs.root else walk fs names fs.root) ≡ file node
      → (k' : Kernel) × (x' : Process) × (sys_open fs is_root names stale r k ≡ ok (0, k'))
        × Runs k' x'
        × (k'.words r.ecx ≡ length x.file_descriptors)
        × (descriptor x' (k'.words r.ecx) ≡ node)
        × ((fd : ℕ) → fd < length x.file_descriptors → descriptor x' fd ≡ descriptor x fd)
  unfolding add_descriptor
  sys_open-descriptor is_root names stale r k x node runs e =
      let x' = record x { file_descriptors = x.file_descriptors ++ node ∷ [] } in
      let here : (r.ecx == r.ecx) ≡ true = ground arith in
      (
        record k {
          sched = store k.sched k.sched.current x';
          words = write_word k.words r.ecx (length x.file_descriptors);
        },
        x',
        sys_open-eq-add_descriptor is_root names stale r k node e
            ∙ rw (load-ok k.sched k.sched.current x runs.current_set runs.current_at),
        record { current_set = runs.current_set; current_at = ground arith },
        rw here,
        rw here (get_or-append_last x.file_descriptors node 0),
        λ fd inside. get_or-append_left x.file_descriptors (node ∷ []) fd 0 inside,
      )

  -- What was opened is what is closed: `SysClose` of the descriptor that `SysOpen` reported calls the
  -- node's `close`, and returns 0 in the state that this leaves.
  pub sys_close-sys_open :
      (close : Ptr → Kernel → Run Kernel) (is_root : Bool) (names : List Name) (stale : ℕ)
      (r : Regs) (k : Kernel) (x : Process) (node : Ptr)
      → Runs k x
      → node ≢ 0
      → (if is_root then file fs.root else walk fs names fs.root) ≡ file node
      → (k' : Kernel) × (sys_open fs is_root names stale r k ≡ ok (0, k'))
        × (sys_close fs close (record r { ebx = k'.words r.ecx }) k'
            ≡ (close node k' >>= λ k''. ok (0, k'')))
  unfolding sys_close
  sys_close-sys_open close is_root names stale r k x node runs nz e =
      let (k', x', run, runs', at, there, same) =
        sys_open-descriptor is_root names stale r k x node runs e in
      let set : (node == 0) ≡ false = ground arith in
      (
        k',
        run,
        rw (load-ok k'.sched k'.sched.current x' runs'.current_set runs'.current_at, there, set),
      )

  -- `SysWrite` of the descriptor that `SysOpen` reported, with a buffer and a count: the bytes are copied to
  -- the new address, the node's callback gets that copy, and what it returns is stored at `esi`, if there
  -- is a place for it.
  pub sys_write-sys_open :
      (fresh : Ptr) (copy : (to from count : ℕ) → Kernel → Run Kernel)
      (write_node : Ptr → ℕ → ℕ → Kernel → Run (ℕ × Kernel)) (is_root : Bool) (names : List Name)
      (stale : ℕ) (r s : Regs) (k : Kernel) (x : Process) (node : Ptr)
      → Runs k x
      → node ≢ 0
      → s.ecx ≢ 0
      → s.edx ≢ 0
      → s.esi ≢ 0
      → (if is_root then file fs.root else walk fs names fs.root) ≡ file node
      → (k' : Kernel) × (sys_open fs is_root names stale r k ≡ ok (0, k'))
        × (sys_write fs fresh copy write_node (record s { ebx = k'.words r.ecx }) k'
            ≡ (copy fresh s.ecx s.edx k' >>= λ k''. (write_node node fresh s.edx k'' >>= stored s)))
  unfolding sys_write
  sys_write-sys_open fresh copy write_node is_root names stale r s k x node runs nz buffer count
        place e =
      let (k', x', run, runs', at, there, same) =
        sys_open-descriptor is_root names stale r k x node runs e in
      let set : (node == 0) ≡ false = ground arith in
      let given : (s.ecx == 0) ≡ false = ground arith in
      let some_bytes : (s.edx == 0) ≡ false = ground arith in
      let placed : (s.esi == 0) ≡ false = ground arith in
      let loaded = load-ok k'.sched k'.sched.current x' runs'.current_set runs'.current_at in
      (k', run, rw (loaded, there, set, given, some_bytes, placed))

  -- Opening a directory other than "/" reports success, but adds no descriptor: the word at `ecx` is
  -- whatever the local variable `fd` happened to hold.
  pub sys_open-directory :
      (names : List Name) (stale : ℕ) (r : Regs) (k : Kernel) (node : Ptr)
      → walk fs names fs.root ≡ directory node
      → sys_open fs false names stale r k
        ≡ ok (0, record k { words = write_word k.words r.ecx stale })
  unfolding sys_open
  sys_open-directory names stale r k node e = rw (e, sys_open)
