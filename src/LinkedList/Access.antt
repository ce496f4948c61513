-- ===== src/LinkedList/Access.antt =====
-- Reading and writing at a position of a list, in and out of range.
use literate_os.Common.{
  ℕ, ◌+◌, ◌<◌, ◌≡◌, refl, sym, subst, ap, ◌∙◌, true, false, Option, some, length, get_or, get_or-ge,
  get_elem?-eq-get_or, ◌==◌, leb, ◌||◌, if◌then◌else◌, arith, inl, inr, Bool-cases,
}
use literate_os.Common.Run.{ok, fault, write, write_self, write-ne}
use literate_os.LinkedList.{
  Ptr, Node, LinkedList, deref, get_at, replace_at, get_front, get_back, remove_at, get_length,
}
use literate_os.LinkedList.Chain.{Cells, Chain, last, more, objects, length-objects, front-ne-zero}
use literate_os.LinkedList.Sequence.{first, final}
use literate_os.LinkedList.Walk.{deref-ok, address, put, put-ge, length-put, walk_lem, Chain-put}
use literate_os.LinkedList.Operations.{IsList, no_nodes, nodes}

module _ {T : Type 0} (zeroed : T) (pos : ℕ) where
  pub get_at-IsList :
      (s : LinkedList T) {cs : Cells T}
      → IsList s cs
      → get_at zeroed pos s ≡ ok (get_or (objects cs) pos zeroed)
  unfolding get_at
  get_at-IsList s (no_nodes f b num) =
      let none_yet : (s.num == 0 || leb s.num pos || s.front == 0) ≡ true = ground arith in
      rw none_yet
  get_at-IsList s {cs} (nodes c num) = elim (Bool-cases (leb (length cs) pos)) [
    | inl beyond ↦
        let out : (s.num == 0 || leb s.num pos || s.front == 0) ≡ true = ground arith in
        let none_there : get_or (objects cs) pos zeroed ≡ zeroed =
          get_or-ge (objects cs) pos zeroed (ground (arith, length-objects cs)) in
        rw (out, none_there)
    | inr within ↦
        let out : (s.num == 0 || leb s.num pos || s.front == 0) ≡ false =
          ground (arith, front-ne-zero c) in
        let (walked, _, found) = walk_lem s.num pos 0 c (ground arith) (ground arith) in
        let inside : pos < length (objects cs) = ground (arith, length-objects cs) in
        let same : get_or (objects cs) pos zeroed ≡ found.node.obj =
          cc (sym (get_elem?-eq-get_or (objects cs) pos zeroed inside) ∙ found.obj) in
        rw (out, walked, deref-ok s.heap (address cs pos) found.nonzero found.there, same)
  ]

module _ {T : Type 0} (pos : ℕ) where
  pub replace_at-IsList :
      (x : T) (s : LinkedList T) {cs : Cells T}
      → IsList s cs
      → (t : LinkedList T) × (replace_at pos x s ≡ ok t) × IsList t (put cs pos x)
  unfolding replace_at
  replace_at-IsList x s (no_nodes f b num) =
      let none_yet : leb s.num pos ≡ true = ground arith in (s, rw none_yet, no_nodes f b num)
  replace_at-IsList x s {cs} (nodes c num) = elim (Bool-cases (leb (length cs) pos)) [
    | inl beyond ↦
        let out : leb s.num pos ≡ true = ground arith in
        (s, rw out, subst (λ ds. IsList s ds) (sym (put-ge cs pos x (ground arith))) (nodes c num))
    | inr within ↦
        let out : leb s.num pos ≡ false = ground arith in
        let (_, followed, found) =
          walk_lem (s.num + pos + 1) pos 0 c (ground arith) (ground arith) in
        let there : (address cs pos == 0) ≡ false = ground (arith, found.nonzero) in
        let written = record found.node { obj = x } in
        let t : LinkedList T = record s { heap = write s.heap (address cs pos) (some written) } in
        (
          t,
          rw (out, followed, deref-ok s.heap (address cs pos) found.nonzero found.there, there),
          nodes
              (Chain-put pos x c (ground arith) (write-ne s.heap (address cs pos) (some written))
                λ n there.
                  let same : found.node ≡ n = cc (sym found.there ∙ there) in
                  write_self s.heap (address cs pos) (some written)
                  ∙ ap (λ (m : Node T). some (record m { obj = x })) same)
              (num ∙ sym (length-put cs pos x)),
        )
  ]

module _ {T : Type 0} where
  front-object :
      {h : Ptr → Option (Node T)} {back p : Ptr} {cs : Cells T}
      → Chain h back p cs
      → (n : Node T) × (deref h p ≡ ok n) × (first (objects cs) ≡ ok n.obj)
  front-object {h} (last {p} {n} e nz at o) = (n, deref-ok h p nz at, ap ok (sym o))
  front-object {h} (more {p} {n = n} nz at o e out c) = (n, deref-ok h p nz at, ap ok (sym o))

  back-object :
      {h : Ptr → Option (Node T)} {back p : Ptr} {cs : Cells T}
      → Chain h back p cs
      → (n : Node T) × (deref h back ≡ ok n) × (final (objects cs) ≡ ok n.obj)
  back-object {h} {back} (last {p} {n} e nz at o) =
      (n, ap (deref h) (sym e) ∙ deref-ok h p nz at, ap ok (sym o))
  back-object (more nz at o e out c) = back-object c

  pub get_front-IsList :
      (s : LinkedList T) {cs : Cells T} → IsList s cs → get_front s ≡ first (objects cs)
  unfolding get_front
  get_front-IsList s (no_nodes f b num) = rw f refl
  get_front-IsList s (nodes c num) = let (n, there, is) = front-object c in rw (there, is) refl

  pub get_back-IsList :
      (s : LinkedList T) {cs : Cells T} → IsList s cs → get_back s ≡ final (objects cs)
  unfolding get_back
  get_back-IsList s (no_nodes f b num) = rw b refl
  get_back-IsList s (nodes c num) = let (n, there, is) = back-object c in rw (there, is) refl

  pub remove_at-IsList :
      (zeroed : T) (pos : ℕ) (s : LinkedList T) {cs : Cells T}
      → IsList s cs
      → remove_at zeroed pos s ≡ (if leb (length (objects cs)) pos then ok zeroed else fault)
  unfolding remove_at
  remove_at-IsList zeroed pos s (no_nodes f b num) =
      let none_yet : (s.num == 0 || leb s.num pos || s.front == 0) ≡ true = ground arith in
      let beyond : leb 0 pos ≡ true = ground arith in rw (none_yet, beyond)
  remove_at-IsList zeroed pos s {cs} (nodes c num) =
      let same : (s.num == 0 || leb s.num pos || s.front == 0) ≡ leb (length (objects cs)) pos =
        ground (arith, front-ne-zero c, length-objects cs) in
      rw same

  pub get_length-IsList : (s : LinkedList T) {cs : Cells T} → IsList s cs → get_length s ≡ length cs
  unfolding get_length
  get_length-IsList s (no_nodes f b num) = num
  get_length-IsList s (nodes c num) = num
