-- ===== src/LinkedList/Chain.antt =====
-- The nodes of a list in memory.
use literate_os.Common.{
  ◌≡◌, refl, sym, ap, ◌∙◌, ◌≢◌, Bool, true, false, Option, some, List, [], ◌∷◌, ◌++◌, ◌==◌, ◌||◌,
  arith, length, suc,
}
use literate_os.LinkedList.{Ptr, Node}

-- Address and object of each node, in order.
abbrev pub Cells : Type 0 → Type 0
Cells T = List (Ptr × T)

abbrev pub has : {T : Type 0} → Ptr → Cells T → Bool
has a [] = false
has a ((p, _) ∷ cs) = (a == p) || has a cs

abbrev pub objects : {T : Type 0} → Cells T → List T
objects [] = []
objects ((_, x) ∷ cs) = x ∷ objects cs

has-append_last :
    {T : Type 0} (a p : Ptr) (x : T) (cs : Cells T)
    → has a (cs ++ (p, x) ∷ []) ≡ (has a cs || (a == p))
has-append_last a p x [] = ground arith
has-append_last a p x ((q, y) ∷ cs) = ground (arith, has-append_last a p x cs)

-- From `p` the `next` pointers lead through distinct nodes to the node at `back`. The `next` pointer of
-- that node is not said.
pub data Chain {T : Type 0} (h : Ptr → Option (Node T)) (back : Ptr) : Ptr → Cells T → Type 0 where
  last :
      {p : Ptr} {n : Node T} {x : T}
      → p ≡ back
      → p ≢ 0
      → h p ≡ some n
      → n.obj ≡ x
      → Chain h back p ((p, x) ∷ [])
  more :
      {p q : Ptr} {n : Node T} {x y : T} {cs : Cells T}
      → p ≢ 0
      → h p ≡ some n
      → n.obj ≡ x
      → n.next ≡ q
      → has p ((q, y) ∷ cs) ≡ false
      → Chain h back q ((q, y) ∷ cs)
      → Chain h back p ((p, x) ∷ (q, y) ∷ cs)

pub has-ne : {T : Type 0} {a p : Ptr} (cs : Cells T) → has p cs ≡ false → has a cs ≡ true → a ≢ p
has-ne cs out i same = cc (sym i ∙ ap (λ (a : Ptr). has a cs) same ∙ out)

module _ {T : Type 0} {h : Ptr → Option (Node T)} {back : Ptr} where
  -- `more` for any rest.
  pub link :
      {p q : Ptr} {n : Node T} {x : T} {cs : Cells T}
      → p ≢ 0
      → h p ≡ some n
      → n.obj ≡ x
      → n.next ≡ q
      → has p cs ≡ false
      → Chain h back q cs
      → Chain h back p ((p, x) ∷ cs)
  link nz at o e out (last a b c d) = more nz at o e out (last a b c d)
  link nz at o e out (more a b c d f g) = more nz at o e out (more a b c d f g)

  pub front-ne-zero : {p : Ptr} {cs : Cells T} → Chain h back p cs → p ≢ 0
  front-ne-zero (last e nz at o) = nz
  front-ne-zero (more nz at o e out c) = nz

  pub has-front : {p : Ptr} {cs : Cells T} → Chain h back p cs → has p cs ≡ true
  has-front (last e nz at o) = ground arith
  has-front (more nz at o e out c) = ground arith

  pub has-back : {p : Ptr} {cs : Cells T} → Chain h back p cs → has back cs ≡ true
  has-back (last e nz at o) = ground arith
  has-back (more nz at o e out c) = ground (arith, has-back c)

  pub back-node :
      {p : Ptr} {cs : Cells T} → Chain h back p cs → (back ≢ 0) × (n : Node T) × (h back ≡ some n)
  back-node (last {n = n} e nz at o) = (ground arith, n, ap h (sym e) ∙ at)
  back-node (more nz at o e out c) = back-node c

  pub front-node : {p : Ptr} {cs : Cells T} → Chain h back p cs → (n : Node T) × (h p ≡ some n)
  front-node (last {n = n} e nz at o) = (n, at)
  front-node (more {n = n} nz at o e out c) = (n, at)

  -- A chain survives any change that spares its own nodes.
  pub frame :
      {g : Ptr → Option (Node T)} {p : Ptr} {cs : Cells T}
      → Chain h back p cs
      → ((a : Ptr) → has a cs ≡ true → g a ≡ h a)
      → Chain g back p cs
  frame (last {p} e nz at o) same = last e nz (same p (ground arith) ∙ at) o
  frame (more {p} nz at o e out c) same =
      more nz (same p (ground arith) ∙ at) o e out (frame c λ a i. same a (ground arith))

  -- The links and the objects are all that a chain says.
  pub frame-links :
      {g : Ptr → Option (Node T)} {p : Ptr} {cs : Cells T}
      → Chain h back p cs
      → ((a : Ptr) (n : Node T)
          → has a cs ≡ true
          → h a ≡ some n
          → (m : Node T) × (g a ≡ some m) × (m.next ≡ n.next) × (m.obj ≡ n.obj))
      → Chain g back p cs
  frame-links (last {p} {n} e nz at o) same =
      let (m, there, next, obj) = same p n (ground arith) at in last e nz there (obj ∙ o)
  frame-links (more {p} {n = n} nz at o e out c) same =
      let (m, there, next, obj) = same p n (ground arith) at in
      more nz there (obj ∙ o) (next ∙ e) out (frame-links c λ a k i. same a k (ground arith))

  -- A node behind the last one, to which the last one is linked.
  pub append :
      {g : Ptr → Option (Node T)} {p fresh : Ptr} {cs : Cells T} {new : Node T} {x : T}
      → Chain h back p cs
      → ((a : Ptr) → has a cs ≡ true → a ≢ back → g a ≡ h a)
      → ((n : Node T) → h back ≡ some n → g back ≡ some (record n { next = fresh }))
      → g fresh ≡ some new
      → new.obj ≡ x
      → fresh ≢ 0
      → has fresh cs ≡ false
      → Chain g fresh p (cs ++ (fresh, x) ∷ [])
  append {g} {fresh = fresh} (last {p} {n} e nz at o) same linked there obj fz out =
      more nz (ap g e ∙ linked n (ap h (sym e) ∙ at)) o refl (ground arith) (last refl fz there obj)
  append {fresh = fresh} {x = new} (more {p} {q} {y = y} {cs = cs} nz at o e out c) same linked
        there obj fz new_out =
      let rest = (q, y) ∷ cs in
      let ne : p ≢ back = λ same_node. has-ne rest out (has-back c) (sym same_node) in
      let apart : has p (rest ++ (fresh, new) ∷ []) ≡ false =
        has-append_last p fresh new rest ∙ ground (arith, out, new_out) in
      more nz (same p (ground arith) ne ∙ at) o e apart
        (append c (λ a i ne. same a (ground arith) ne) linked there obj fz (ground arith))

-- What an object list is after a write of one object.
pub objects-append : {T : Type 0} (cs ds : Cells T) → objects (cs ++ ds) ≡ objects cs ++ objects ds
objects-append [] ds = refl
objects-append ((p, x) ∷ cs) ds = ap (λ xs. x ∷ xs) (objects-append cs ds)

pub length-objects : {T : Type 0} (cs : Cells T) → length (objects cs) ≡ length cs
length-objects [] = refl
length-objects ((p, x) ∷ cs) = ap suc (length-objects cs)
