-- ===== src/Terminal/Callbacks.antt =====
-- The callbacks of the terminals' files: they answer for every inode, and touch one terminal at most.
use literate_os.Common.{
  ℕ, ◌≡◌, ◌≢◌, refl, sym, ap, ◌∙◌, true, false, Option, some, List, get_elem?, ◌==◌, if◌then◌else◌,
  arith, Bool-cases, inl, inr,
}
use literate_os.Common.Run.{Run, ok, write, write_self, write-ne}
use literate_os.LinkedList.{Ptr, Node, LinkedList}
use literate_os.Terminal.{
  Terminals, Pty, BufferOps, with_pty, set_pty, fs_ioctl, tiocgwinsz, tiocswinsz, minus_one,
  fs_slave_write, fs_master_write, fs_master_read,
}
use literate_os.Terminal.Laws.{IsTerminals, pty_of-ok}

pub data Callback : Type 0 where
  write_slave : (inode size buffer : ℕ) → Callback
  write_master : (inode size buffer : ℕ) → Callback
  read_master : (inode size buffer : ℕ) → Callback
  control : (inode cmd arg : ℕ) → Callback

abbrev pub inode_of : Callback → ℕ
inode_of (write_slave inode size buffer) = inode
inode_of (write_master inode size buffer) = inode
inode_of (read_master inode size buffer) = inode
inode_of (control inode cmd arg) = inode

module _ {B : Type 0} (heap : Ptr → Option (Node Ptr)) (ops : BufferOps B) where
  abbrev pub perform : Callback → Terminals B → Run (ℕ × Terminals B)
  perform (write_slave inode size buffer) = fs_slave_write ops inode size buffer
  perform (write_master inode size buffer) = fs_master_write ops inode size buffer
  perform (read_master inode size buffer) = fs_master_read ops inode size buffer
  perform (control inode cmd arg) = fs_ioctl ops inode cmd arg

  -- The terminals are as before, but for the one at position `i`.
  pub record Keeps (t : Terminals B) (ps : List Ptr) (i : ℕ) (t' : Terminals B) : Type 0 where
    pub valid : IsTerminals heap t' ps
    pub list : t'.ptys ≡ t.ptys
    pub others : (a : Ptr) → get_elem? ps i ≢ some a → t'.at a ≡ t.at a

  with_pty-found :
      (i missing : ℕ) (f : Ptr → Pty B → Run (ℕ × Terminals B)) (t : Terminals B) {ps : List Ptr}
      {p : Ptr} {pty : Pty B}
      → IsTerminals heap t ps
      → get_elem? ps i ≡ some p
      → t.at p ≡ some pty
      → with_pty ops i missing f t ≡ f p pty
  unfolding with_pty
  with_pty-found i missing f t {p = p} v at there =
      let (nz, _, _, _) = v.each i p at in
      let set : (p == 0) ≡ false = ground arith in rw (pty_of-ok heap ops i t v at, there, set)

  -- Replacing a terminal by one with the same inode.
  set_pty-Keeps :
      (i : ℕ) (p : Ptr) (pty' : Pty B) (t : Terminals B) {ps : List Ptr}
      → IsTerminals heap t ps
      → get_elem? ps i ≡ some p
      → pty'.inode ≡ i
      → Keeps t ps i (set_pty ops p pty' t)
  set_pty-Keeps i p pty' t {ps} v at inode = record {
    valid = record { cells = v.cells; valid = v.valid; same = v.same; each = each };
    list = refl;
    others = λ a ne. write-ne t.at p (some pty') a (λ is. ne (at ∙ ap some (sym is)));
  }
    where
      each :
          (k : ℕ) (q : Ptr)
          → get_elem? ps k ≡ some q
          → (q ≢ 0) × (x : Pty B) × (write t.at p (some pty') q ≡ some x) × (x.inode ≡ k)
      each k q there =
          let (nz, x, found, is) = v.each k q there in
          elim (Bool-cases (q == p)) [
            | inl same ↦
                let qp : q ≡ p = ground arith in
                let (_, y, here, ino) = v.each i p at in
                let xy : x ≡ y = cc (sym found ∙ ap t.at qp ∙ here) in
                let ki : k ≡ i = sym is ∙ ap (λ (z : Pty B). z.inode) xy ∙ ino in
                (
                  nz,
                  pty',
                  ap (write t.at p (some pty')) qp ∙ write_self t.at p (some pty'),
                  inode ∙ sym ki,
                )
            | inr other ↦ (nz, x, write-ne t.at p (some pty') q (ground arith) ∙ found, is)
          ]

  -- Answers of a callback, with what it keeps.
  abbrev Answers : (i : ℕ) (t : Terminals B) (ps : List Ptr) → Run (ℕ × Terminals B) → Type 0
  Answers i t ps m = (n : ℕ) × (t' : Terminals B) × (m ≡ ok (n, t')) × Keeps t ps i t'

  -- The window size of a terminal, stored by `TIOCSWINSZ`, is what `TIOCGWINSZ` then returns; the other terminals
  -- are not changed.
  pub fs_ioctl-fs_ioctl :
      (i arg to : ℕ) (t : Terminals B) {ps : List Ptr} {p : Ptr}
      → IsTerminals heap t ps
      → get_elem? ps i ≡ some p
      → (t₁ : Terminals B) × (t₂ : Terminals B) × (fs_ioctl ops i tiocswinsz arg t ≡ ok (0, t₁))
        × (fs_ioctl ops i tiocgwinsz to t₁ ≡ ok (0, t₂))
        × (t₂.sizes to ≡ t.sizes arg)
        × Keeps t ps i t₁
  unfolding fs_ioctl
  fs_ioctl-fs_ioctl i arg to t {ps} {p} v at =
      let (_, pty, there, inode) = v.each i p at in
      let stored = record pty { wsz = t.sizes arg } in
      let t₁ = set_pty ops p stored t in
      let keeps = set_pty-Keeps i p stored t v at inode in
      let here : (to == to) ≡ true = ground arith in
      (
        t₁,
        record t₁ { sizes = λ a. if a == to then t.sizes arg else t.sizes a },
        with_pty-found i minus_one _ t v at there,
        with_pty-found i minus_one _ t₁ keeps.valid at (write_self t.at p (some stored)),
        rw here,
        keeps,
      )
