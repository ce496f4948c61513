-- ===== src/LinkedList/Walk.antt =====
-- The two traversals of a list, along its chain of nodes.
use literate_os.Common.{
  ℕ, zero, suc, ◌+◌, length, ◌<◌, ◌≤◌, ◌≡◌, refl, ap, ◌∙◌, ◌≢◌, true, false, Option, some, [], ◌∷◌,
  ◌==◌, leb, arith, get_elem?, set, ◌||◌, sym,
}
use literate_os.Common.Run.{ok}
use literate_os.LinkedList.{Ptr, Node, deref, walk, follow}
use literate_os.LinkedList.Chain.{
  Cells, Chain, last, more, has, has-ne, link, objects, front-ne-zero, frame,
}

pub deref-ok :
    {T : Type 0} (h : Ptr → Option (Node T)) (p : Ptr) {n : Node T}
    → p ≢ 0
    → h p ≡ some n
    → deref h p ≡ ok n
deref-ok h p nz at = let set : (p == 0) ≡ false = ground arith in rw (set, at)

-- The address of the node at a position, and the cells with one object replaced.
abbrev pub address : {T : Type 0} → Cells T → ℕ → Ptr
address [] pos = 0
address ((p, _) ∷ cs) zero = p
address ((p, _) ∷ cs) (suc pos) = address cs pos

abbrev pub put : {T : Type 0} → Cells T → ℕ → T → Cells T
put [] pos x = []
put ((p, _) ∷ cs) zero x = (p, x) ∷ cs
put (c ∷ cs) (suc pos) x = c ∷ put cs pos x

pub objects-put :
    {T : Type 0} (cs : Cells T) (pos : ℕ) (x : T) → objects (put cs pos x) ≡ set (objects cs) pos x
objects-put [] pos x = refl
objects-put ((p, y) ∷ cs) zero x = refl
objects-put ((p, y) ∷ cs) (suc pos) x = ap (λ xs. y ∷ xs) (objects-put cs pos x)

pub put-ge : {T : Type 0} (cs : Cells T) (pos : ℕ) (x : T) → length cs ≤ pos → put cs pos x ≡ cs
put-ge [] pos x beyond = refl
put-ge (c ∷ cs) zero x beyond = absurd (omega arith)
put-ge (c ∷ cs) (suc pos) x beyond = ap (λ ds. c ∷ ds) (put-ge cs pos x (omega arith))

pub length-put : {T : Type 0} (cs : Cells T) (pos : ℕ) (x : T) → length (put cs pos x) ≡ length cs
length-put [] pos x = refl
length-put (c ∷ cs) zero x = refl
length-put (c ∷ cs) (suc pos) x = ap suc (length-put cs pos x)

pub has-put :
    {T : Type 0} (a : Ptr) (cs : Cells T) (pos : ℕ) (x : T) → has a (put cs pos x) ≡ has a cs
has-put a [] pos x = refl
has-put a ((p, y) ∷ cs) zero x = refl
has-put a ((p, y) ∷ cs) (suc pos) x = ap (λ b. (a == p) || b) (has-put a cs pos x)

has-address :
    {T : Type 0} (cs : Cells T) (pos : ℕ) → pos < length cs → has (address cs pos) cs ≡ true
has-address [] pos inside = absurd (omega arith)
has-address ((p, y) ∷ cs) zero inside = ground arith
has-address ((p, y) ∷ cs) (suc pos) inside = ground (arith, has-address cs pos (omega arith))

-- The node at a position of a chain, where both traversals end.
pub record NodeAt {T : Type 0} (h : Ptr → Option (Node T)) (cs : Cells T) (pos : ℕ) : Type 0 where
  pub node : Node T
  pub nonzero : address cs pos ≢ 0
  pub there : h (address cs pos) ≡ some node
  pub obj : get_elem? (objects cs) pos ≡ some node.obj

module _ {T : Type 0} {h : Ptr → Option (Node T)} {back : Ptr} where
  pub walk_lem :
      (num left i : ℕ) {p : Ptr} {cs : Cells T}
      → Chain h back p cs
      → left < length cs
      → i + left < num
      → (walk h num left i p ≡ ok (address cs left))
        × (follow h left p ≡ ok (address cs left))
        × NodeAt h cs left
  unfolding walk follow
  walk_lem num zero i (last {n = n} e nz at o) inside bound =
      (refl, refl, record { node = n; nonzero = nz; there = at; obj = ap some (sym o) })
  walk_lem num zero i (more {n = n} nz at o e out c) inside bound =
      (refl, refl, record { node = n; nonzero = nz; there = at; obj = ap some (sym o) })
  walk_lem num (suc left) i (last e nz at o) inside bound = absurd (omega arith)
  walk_lem num (suc left) i (more {p} {q} {n} nz at o e out c) inside bound =
      let (walked, followed, found) = walk_lem num left (i + 1) c (omega arith) (omega arith) in
      let bounded : leb num i ≡ false = ground arith in
      let more_to_come : (n.next == 0) ≡ false = ground (arith, front-ne-zero c, e) in
      (
        rw (bounded, deref-ok h p nz at, more_to_come, e) walked,
        rw (deref-ok h p nz at, e) followed,
        record { node = found.node; nonzero = found.nonzero; there = found.there; obj = found.obj },
      )

  -- Writing the object of the node at a position.
  pub Chain-put :
      (pos : ℕ) {g : Ptr → Option (Node T)} {p : Ptr} {cs : Cells T} (x : T)
      → Chain h back p cs
      → pos < length cs
      → ((a : Ptr) → a ≢ address cs pos → g a ≡ h a)
      → ((n : Node T)
          → h (address cs pos) ≡ some n
          → g (address cs pos) ≡ some (record n { obj = x }))
      → Chain g back p (put cs pos x)
  Chain-put zero x (last {n = n} e nz at o) inside same new = last e nz (new n at) refl
  Chain-put zero x (more {q = q} {n} {y = y} {cs} nz at o e out c) inside same new =
      more nz (new n at) refl e out (frame c λ a i. same a (has-ne ((q, y) ∷ cs) out i))
  Chain-put (suc pos) x (last e nz at o) inside same new = absurd (omega arith)
  Chain-put (suc pos) x (more {p} {q} {y = y} {cs = cs} nz at o e out c) inside same new =
      let rest = (q, y) ∷ cs in
      let other : p ≢ address rest pos =
        λ is. has-ne rest out (has-address rest pos (omega arith)) (sym is) in
      link nz (same p other ∙ at) o e (has-put p rest pos x ∙ out)
        (Chain-put pos x c (omega arith) same new)
