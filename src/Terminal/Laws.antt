-- ===== src/Terminal/Laws.antt =====
-- The list of the terminals, and `GrantPTY`, which has no defined result.
use literate_os.Common.{
  ℕ, ◌≡◌, ◌≢◌, refl, sym, ◌∙◌, Option, none, some, List, get_elem?, get_or, get_elem?-eq-get_or,
  get_elem?-lt,
}
use literate_os.Common.Run.{ok, fault, or_fault}
use literate_os.LinkedList.{Ptr, Node, LinkedList, empty}
use literate_os.LinkedList.Chain.{Cells, objects, front-ne-zero}
use literate_os.LinkedList.Operations.{IsList, no_nodes, nodes}
use literate_os.LinkedList.Access.{get_at-IsList}
use literate_os.Terminal.{
  get_next_pty, Terminals, Pty, Winsz, BufferOps, list_of, grant_pty, pty_of,
}

-- A list that was not created yet holds no terminal.
created :
    (heap : Ptr → Option (Node Ptr)) (l : Option (LinkedList Ptr)) {cells : Cells Ptr} (i : ℕ)
    {p : Ptr}
    → IsList (list_of heap l) cells
    → get_elem? (objects cells) i ≡ some p
    → or_fault l ≡ ok (list_of heap l)
unfolding empty
created heap (some l) i valid at = refl
created heap none i (no_nodes f b num) at = absurd (cc at)
created heap none i (nodes c num) at = absurd (front-ne-zero c refl)

module _ {B : Type 0} (heap : Ptr → Option (Node Ptr)) where
  -- The terminals in the order in which they were granted: the inode of each is its position.
  pub record IsTerminals (t : Terminals B) (ps : List Ptr) : Type 0 where
    pub cells : Cells Ptr
    pub valid : IsList (list_of heap t.ptys) cells
    pub same : objects cells ≡ ps
    pub each :
        (i : ℕ) (p : Ptr)
        → get_elem? ps i ≡ some p
        → (p ≢ 0) × (pty : Pty B) × (t.at p ≡ some pty) × (pty.inode ≡ i)

  module _ (ops : BufferOps B) where
    pub pty_of-ok :
        (i : ℕ) (t : Terminals B) {ps : List Ptr} {p : Ptr}
        → IsTerminals t ps
        → get_elem? ps i ≡ some p
        → pty_of ops i t ≡ ok p
    unfolding pty_of
    pty_of-ok i t {ps} {p} v at =
        let there : get_elem? (objects v.cells) i ≡ some p = rw v.same at in
        let here : get_or (objects v.cells) i 0 ≡ p = cc (
          sym (get_elem?-eq-get_or (objects v.cells) i 0 (get_elem?-lt (objects v.cells) i there))
          ∙ there) in
        rw (
          created heap t.ptys i v.valid there,
          get_at-IsList 0 i (list_of heap t.ptys) v.valid,
          here,
        )

    -- `GrantPTY` is undefined whatever its state: the constructor names the terminal by `GetNextPTY`.
    pub grant_pty-fault :
        (node : Ptr) (old : Node Ptr) (fresh : Ptr) (stale : Winsz) (t : Terminals B)
        → grant_pty ops heap node old fresh stale t ≡ fault
    unfolding grant_pty get_next_pty
    grant_pty-fault node old fresh stale t = refl
