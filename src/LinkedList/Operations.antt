-- ===== src/LinkedList/Operations.antt =====
-- What each operation does to the nodes of a list.
use literate_os.Common.{
  none, ℕ, suc, ◌^◌, ◌<◌, ◌≡◌, ◌≢◌, refl, sym, ap, ◌∙◌, true, false, Option, some, [], ◌∷◌, ◌++◌,
  length, ◌==◌, arith, inl, inr, Bool-cases,
}
use literate_os.Common.Bits.{add32}
use literate_os.Common.Run.{ok, write, write_self, write-ne}
use literate_os.LinkedList.{Ptr, Node, LinkedList, deref, add_back, add_front}
use literate_os.LinkedList.Chain.{
  more, Cells, Chain, last, has, has-ne, link, front-ne-zero, has-front, has-back, back-node,
  front-node, frame-links, append,
}
use literate_os.LinkedList.Walk.{deref-ok}

-- An empty list has two null pointers, any other the two ends of its chain.
pub data IsList {T : Type 0} (s : LinkedList T) : Cells T → Type 0 where
  no_nodes : s.front ≡ 0 → s.back ≡ 0 → s.num ≡ 0 → IsList s []
  nodes : {cs : Cells T} → Chain s.heap s.back s.front cs → s.num ≡ length cs → IsList s cs

append_cons : {T : Type 0} (cs : Cells T) (c : Ptr × T) → length (cs ++ c ∷ []) ≡ suc (length cs)
append_cons [] c = refl
append_cons (d ∷ cs) c = ap suc (append_cons cs c)

add-num : {n k : ℕ} → n ≡ k → suc k < 2 ^ 32 → add32 n 1 ≡ suc k
add-num e small = omega arith

module _ {T : Type 0} (fresh : Ptr) (nz : fresh ≢ 0) where
  pub add_back-IsList :
      (stale : Node T) (x : T) (s : LinkedList T) {cs : Cells T}
      → IsList s cs
      → has fresh cs ≡ false
      → suc (length cs) < 2 ^ 32
      → (t : LinkedList T) × (add_back fresh stale x s ≡ ok t) × IsList t (cs ++ (fresh, x) ∷ [])
  unfolding add_back
  add_back-IsList stale x s (no_nodes f b num) out small =
      let valid : (fresh == 0) ≡ false = ground arith in
      let none_yet : (s.front == 0) ≡ true = ground arith in
      let node = record stale { obj = x } in
      let t : LinkedList T = record {
        heap = write s.heap fresh (some node);
        front = fresh;
        back = fresh;
        num = add32 s.num 1;
      } in
      (
        t,
        rw (valid, none_yet),
        nodes (last refl nz (write_self s.heap fresh (some node)) refl) (add-num num small),
      )
  add_back-IsList stale x s {cs} (nodes c num) out small =
      let valid : (fresh == 0) ≡ false = ground arith in
      let some_yet : (s.front == 0) ≡ false = ground (arith, front-ne-zero c) in
      let node = record stale { obj = x } in
      let (back_nz, old, at) = back-node c in
      let apart : s.back ≢ fresh = has-ne cs out (has-back c) in
      let new = write s.heap fresh (some node) in
      let linked = write new s.back (some (record old { next = fresh })) in
      let final = write linked fresh (some (record node { prev = s.back })) in
      let t : LinkedList T = record {
        heap = final;
        front = s.front;
        back = fresh;
        num = add32 s.num 1;
      } in
      let old_at : deref new s.back ≡ ok old =
        deref-ok new s.back back_nz (write-ne s.heap fresh (some node) s.back apart ∙ at) in
      let new_at : linked fresh ≡ some node =
        write-ne new s.back (some (record old { next = fresh })) fresh (λ e. apart (sym e))
        ∙ write_self s.heap fresh (some node) in
      let kept : (a : Ptr) → has a cs ≡ true → a ≢ s.back → final a ≡ s.heap a = λ a i ne.
        let other = has-ne cs out i in
        write-ne linked fresh (some (record node { prev = s.back })) a other
        ∙ write-ne new s.back (some (record old { next = fresh })) a ne
        ∙ write-ne s.heap fresh (some node) a other in
      let last_linked : (n : Node T)
          → s.heap s.back ≡ some n
          → final s.back ≡ some (record n { next = fresh }) =
        λ n there.
          let same : old ≡ n = cc (sym at ∙ there) in
          write-ne linked fresh (some (record node { prev = s.back })) s.back apart
          ∙ write_self new s.back (some (record old { next = fresh }))
          ∙ ap (λ (m : Node T). some (record m { next = fresh })) same in
      let chain : Chain final fresh s.front (cs ++ (fresh, x) ∷ []) =
        append c kept last_linked (write_self linked fresh (some (record node { prev = s.back })))
          refl nz out in
      (
        t,
        rw (valid, some_yet, old_at, new_at),
        nodes chain (add-num num small ∙ sym (append_cons cs (fresh, x))),
      )

  pub add_front-IsList :
      (x : T) (s : LinkedList T) {cs : Cells T}
      → IsList s cs
      → has fresh cs ≡ false
      → suc (length cs) < 2 ^ 32
      → (t : LinkedList T) × (add_front fresh x s ≡ ok t) × IsList t ((fresh, x) ∷ cs)
  unfolding add_front
  add_front-IsList x s (no_nodes f b num) out small =
      let valid : (fresh == 0) ≡ false = ground arith in
      let none_yet : (s.back == 0) ≡ true = ground arith in
      let node : Node T = record { next = 0; prev = 0; obj = x } in
      let t : LinkedList T = record {
        heap = write s.heap fresh (some node);
        front = fresh;
        back = fresh;
        num = add32 s.num 1;
      } in
      (
        t,
        rw (valid, none_yet),
        nodes (last refl nz (write_self s.heap fresh (some node)) refl) (add-num num small),
      )
  add_front-IsList x s {cs} (nodes c num) out small =
      let valid : (fresh == 0) ≡ false = ground arith in
      let (back_nz, _, _) = back-node c in
      let some_yet : (s.back == 0) ≡ false = ground arith in
      let node : Node T = record { next = 0; prev = 0; obj = x } in
      let (old, at) = front-node c in
      let apart : s.front ≢ fresh = has-ne cs out (has-front c) in
      let new = write s.heap fresh (some node) in
      let linked = write new s.front (some (record old { prev = fresh })) in
      let final = write linked fresh (some (record node { next = s.front })) in
      let t : LinkedList T = record {
        heap = final;
        front = fresh;
        back = s.back;
        num = add32 s.num 1;
      } in
      let old_at : deref new s.front ≡ ok old =
        deref-ok new s.front (front-ne-zero c)
          (write-ne s.heap fresh (some node) s.front apart ∙ at) in
      let new_at : linked fresh ≡ some node =
        write-ne new s.front (some (record old { prev = fresh })) fresh (λ e. apart (sym e))
        ∙ write_self s.heap fresh (some node) in
      let kept : (a : Ptr) (n : Node T)
          → has a cs ≡ true
          → s.heap a ≡ some n
          → (m : Node T) × (final a ≡ some m) × (m.next ≡ n.next) × (m.obj ≡ n.obj) =
        λ a n i there.
          let other = has-ne cs out i in
          let spared = write-ne linked fresh (some (record node { next = s.front })) a other in
          elim (Bool-cases (a == s.front)) [
            | inl e ↦
                let is : a ≡ s.front = ground arith in
                let same : old ≡ n = cc (sym at ∙ ap s.heap (sym is) ∙ there) in
                (
                  record old { prev = fresh },
                  spared
                      ∙ ap linked is
                      ∙ write_self new s.front (some (record old { prev = fresh })),
                  ap (λ (m : Node T). m.next) same,
                  ap (λ (m : Node T). m.obj) same,
                )
            | inr e ↦ (
              n,
              spared
                  ∙ write-ne new s.front (some (record old { prev = fresh })) a (λ is. ground arith)
                  ∙ write-ne s.heap fresh (some node) a other
                  ∙ there,
              refl,
              refl,
            )
          ] in
      (
        t,
        rw (valid, some_yet, old_at, new_at),
        nodes
            (link nz (write_self linked fresh (some (record node { next = s.front }))) refl refl out
              (frame-links c kept))
            (add-num num small),
      )

chain-unused :
    {T : Type 0} {h : Ptr → Option (Node T)} {back p : Ptr} {cs : Cells T} (a : Ptr)
    → Chain h back p cs
    → h a ≡ none
    → has a cs ≡ false
chain-unused {h = h} a (last {p} e nz at o) free =
    let ne : a ≢ p = λ is. cc (sym free ∙ ap h is ∙ at) in ground arith
chain-unused {h = h} a (more {p} nz at o e out c) free =
    let ne : a ≢ p = λ is. cc (sym free ∙ ap h is ∙ at) in ground (arith, chain-unused a c free)

-- An address without a node is none of the list's.
pub IsList-unused :
    {T : Type 0} {s : LinkedList T} {cs : Cells T} (a : Ptr)
    → IsList s cs
    → s.heap a ≡ none
    → has a cs ≡ false
IsList-unused a (no_nodes f b num) free = refl
IsList-unused a (nodes c num) free = chain-unused a c free
