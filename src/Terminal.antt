-- ===== src/Terminal.antt =====
-- Pseudo terminals: Kernel/src/tty/pty.cpp and Kernel/include/pty.h.
--
-- `CharacterBuffer` is declared and not defined: its type and its methods are parameters. A call that
-- waits for another one, such as a read of more bytes than there are, is `out_of_fuel`.
pub mod Names
pub mod Laws
pub mod Callbacks
mod Tests
use literate_os.Common.{
  ℕ, zero, suc, ◌+◌, Bool, true, false, not, Option, none, some, List, [], ◌∷◌, ◌++◌, ◌==◌, ltb,
  ◌&&◌, ◌||◌, if◌then◌else◌,
}
use literate_os.Common.Bits.{u8}
use literate_os.Common.Run.{Run, ok, fault, out_of_fuel, ◌>>=◌, or_fault, write}
use literate_os.LinkedList.{Ptr, Node, LinkedList, empty, add_back, get_at, get_length}

-- The comparisons of `char`, which is signed: from 128 on a value is negative.
abbrev pub char_below : ℕ → ℕ → Bool
char_below c n = ltb c n || not (ltb c 128)

abbrev pub char_above : ℕ → ℕ → Bool
char_above c n = ltb n c && ltb c 128

-- '0', '9', 'A', 'a' and 'z' are 48, 57, 65, 97 and 122.
-- This is what `GetNextPTY` stores in `nextPTY`.
pub next_name : ℕ → ℕ
next_name c =
    let next = u8 (c + 1) in
    if char_below next 97 && char_above next 57
    then 97
    else if char_below next 65 && char_above next 122
    then 65
    else next

-- The function has a type and no return statement, so its call is undefined.
unfoldable pub get_next_pty : ℕ → Run ℕ
get_next_pty c = fault

-- `winsz`.
pub record Winsz : Type 0 where
  pub row_count : ℕ
  pub col_count : ℕ
  pub width : ℕ
  pub height : ℕ

-- The state of a `CharacterBuffer`, what the terminal looks at in it, and its methods; a write is given the
-- bytes that it reads, a read gives the bytes that it stores.
pub record BufferOps (B : Type 0) : Type 0 where
  pub new_buffer : B
  pub set_ignore_backspace : Bool → B → B
  pub buffer_pos : B → ℕ
  pub lines : B → ℕ
  pub write_buffer : List ℕ → B → ℕ × B
  pub read_buffer : (count : ℕ) → B → ℕ × List ℕ × B

-- `PTY`. The two files have the same inode; `name` is the character behind "pty".
pub record Pty (B : Type 0) : Type 0 where
  pub master : B
  pub slave : B
  pub inode : ℕ
  pub name : ℕ
  pub wsz : Winsz
  pub canonical : Bool
  pub echo : Bool

-- `ptys` is none while it is NULL; `devices` are the terminals whose slave file was registered.
pub record Terminals (B : Type 0) : Type 0 where
  pub ptys : Option (LinkedList Ptr)
  pub at : Ptr → Option (Pty B)
  pub next_pty : ℕ
  pub devices : List Ptr
  pub bytes : ℕ → ℕ
  pub sizes : ℕ → Winsz

abbrev pub bytes_at : (ℕ → ℕ) → (address count : ℕ) → List ℕ
bytes_at bytes address zero = []
bytes_at bytes address (suc count) = bytes address ∷ bytes_at bytes (address + 1) count

-- Bytes from `address` on stored one after another.
abbrev pub store_bytes : (ℕ → ℕ) → (address : ℕ) → List ℕ → ℕ → ℕ
store_bytes bytes address [] a = bytes a
store_bytes bytes address (b ∷ bs) a =
    if a == address then b else store_bytes bytes (address + 1) bs a

-- `TIOCGWINSZ` and `TIOCSWINSZ`; -1 is 2 ^ 32 - 1.
abbrev pub tiocgwinsz : ℕ
tiocgwinsz = 0x5413

abbrev pub tiocswinsz : ℕ
tiocswinsz = 0x5414

abbrev pub minus_one : ℕ
minus_one = 0xffffffff

-- The list of terminals, which is created when it is first used.
abbrev pub list_of : (heap : Ptr → Option (Node Ptr)) → Option (LinkedList Ptr) → LinkedList Ptr
list_of heap none = empty heap
list_of heap (some l) = l

module _ {B : Type 0} (ops : BufferOps B) where
  -- The constructor, at the address `fresh`; `stale` is what `wSz` holds, which is not set.
  abbrev pub new_pty : (stale : Winsz) (inode name : ℕ) → Pty B
  new_pty stale inode name = record {
    master = ops.set_ignore_backspace true ops.new_buffer;
    slave = ops.set_ignore_backspace false ops.new_buffer;
    inode = inode;
    name = name;
    wsz = stale;
    canonical = true;
    echo = true;
  }

  -- `GrantPTY` and the constructor that it runs. `heap`, `node` and `old` are for the list.
  unfoldable pub grant_pty :
      (heap : Ptr → Option (Node Ptr)) (node : Ptr) (old : Node Ptr) (fresh : Ptr) (stale : Winsz)
      → Terminals B
      → Run (Ptr × Terminals B)
  grant_pty heap node old fresh stale t = do
    let ptys = list_of heap t.ptys
    next ← get_next_pty t.next_pty
    let pty = new_pty stale (get_length ptys) t.next_pty
    l ← add_back node old fresh ptys
    ok (
      fresh,
      record t {
        ptys = some l;
        at = write t.at fresh (some pty);
        next_pty = next;
        devices = t.devices ++ fresh ∷ [];
      },
    )

  -- `(*ptys)[node->inode]`: NULL behind the end of the list.
  unfoldable pub pty_of : (inode : ℕ) → Terminals B → Run Ptr
  pty_of inode t = do l ← or_fault t.ptys; get_at 0 inode l

  -- `PTY::Slave_Write`, `Master_Write`, `Master_Read` and `Slave_Read`.
  unfoldable pub slave_write : List ℕ → Pty B → ℕ × Pty B
  slave_write bs p = let (n, b) = ops.write_buffer bs p.master in (n, record p { master = b })

  unfoldable pub master_write : List ℕ → Pty B → ℕ × Pty B
  master_write bs p =
      let (n, b) = ops.write_buffer bs p.slave in
      let echoed = (ops.write_buffer bs p.master).1 in
      (n, record p { slave = b; master = if p.echo then echoed else p.master })

  unfoldable pub master_read : (count : ℕ) → Pty B → ℕ × List ℕ × Pty B
  master_read count p =
      let (n, bs, b) = ops.read_buffer count p.master in (n, bs, record p { master = b })

  unfoldable pub slave_read : (count : ℕ) → Pty B → Run (ℕ × List ℕ × Pty B)
  slave_read count p =
      let (n, bs, b) = ops.read_buffer count p.slave in
      if ltb (ops.buffer_pos p.slave) count
      then out_of_fuel
      else if p.canonical && (ops.lines p.slave == 0)
      then out_of_fuel
      else ok (n, bs, record p { slave = b })

  abbrev pub set_pty : Ptr → Pty B → Terminals B → Terminals B
  set_pty p pty t = record t { at = write t.at p (some pty) }

  -- The terminal of a file node, or `missing` without one.
  unfoldable pub with_pty :
      (inode missing : ℕ)
      → (Ptr → Pty B → Run (ℕ × Terminals B))
      → Terminals B
      → Run (ℕ × Terminals B)
  with_pty inode missing f t = do
    p ← pty_of inode t
    let found = (do pty ← or_fault (t.at p); f p pty)
    if p == 0 then ok (missing, t) else found

  -- The `read` and `write` callbacks of the two files.
  unfoldable pub fs_slave_write : (inode size buffer : ℕ) → Terminals B → Run (ℕ × Terminals B)
  fs_slave_write inode size buffer t =
      with_pty inode 0
        (λ p pty.
          let (n, pty') = slave_write (bytes_at t.bytes buffer size) pty in
          ok (n, set_pty p pty' t))
        t

  -- The address is one more than the buffer's.
  unfoldable pub fs_master_write : (inode size buffer : ℕ) → Terminals B → Run (ℕ × Terminals B)
  fs_master_write inode size buffer t =
      with_pty inode 0
        (λ p pty.
          let (n, pty') = master_write (bytes_at t.bytes (buffer + 1) size) pty in
          ok (n, set_pty p pty' t))
        t

  unfoldable pub fs_master_read : (inode size buffer : ℕ) → Terminals B → Run (ℕ × Terminals B)
  fs_master_read inode size buffer t =
      with_pty inode 0
        (λ p pty.
          let (n, bs, pty') = master_read size pty in
          ok (n, set_pty p pty' (record t { bytes = store_bytes t.bytes buffer bs })))
        t

  unfoldable pub fs_slave_read : (inode size buffer : ℕ) → Terminals B → Run (ℕ × Terminals B)
  fs_slave_read inode size buffer t =
      with_pty inode 0
        (λ p pty. (do
          (n, bs, pty') ← slave_read size pty
          ok (n, set_pty p pty' (record t { bytes = store_bytes t.bytes buffer bs }))))
        t

  unfoldable pub fs_ioctl : (inode cmd arg : ℕ) → Terminals B → Run (ℕ × Terminals B)
  fs_ioctl inode cmd arg t =
      with_pty inode minus_one
        (λ p pty.
          if cmd == tiocgwinsz
          then ok (0, record t { sizes = λ a. if a == arg then pty.wsz else t.sizes a })
          else if cmd == tiocswinsz
          then ok (0, set_pty p (record pty { wsz = t.sizes arg }) t)
          else ok (minus_one, t))
        t
