-- ===== src/LinkedList/Release.antt =====
-- What `clear` and the destructor free.
use literate_os.Common.{
  ℕ, zero, suc, ◌<◌, ◌≡◌, ◌≢◌, refl, sym, ap, ◌∙◌, true, false, Option, some, none, [], ◌∷◌, length,
  ◌==◌, arith, inl, inr, Bool-cases,
}
use literate_os.Common.Run.{ok, fault, write, write_self, write-ne}
use literate_os.LinkedList.{Ptr, Node, LinkedList, free_nodes, clear, destroy, empty}
use literate_os.LinkedList.Chain.{
  Cells, Chain, last, more, has, has-ne, frame, front-ne-zero, has-back,
}
use literate_os.LinkedList.Operations.{IsList, no_nodes, nodes}

module _ {T : Type 0} where
  -- All nodes but the last are freed, and nothing else is changed.
  free_nodes_lem :
      (fuel : ℕ) {back p : Ptr} {n : Node T} {cs : Cells T} (h : Ptr → Option (Node T))
      → Chain h back p cs
      → h back ≡ some n
      → n.next ≡ 0
      → length cs < fuel
      → (g : Ptr → Option (Node T)) × (free_nodes fuel p h ≡ ok g)
        × (g back ≡ some n)
        × ((a : Ptr) → has a cs ≡ false → g a ≡ h a)
        × ((a : Ptr) → has a cs ≡ true → a ≢ back → g a ≡ none)
  unfolding free_nodes
  free_nodes_lem zero h c end stop enough = absurd (omega arith)
  free_nodes_lem (suc fuel) {back} {n = n} h (last {p} {n = m} e nz at o) end stop enough =
      let valid : (p == 0) ≡ false = ground arith in
      let same : m ≡ n = cc (sym at ∙ ap h e ∙ end) in
      let over : (m.next == 0) ≡ true = ground (arith, ap (λ (k : Node T). k.next) same) in
      (h, rw (valid, at, over), end, λ a out. refl, λ a i ne. absurd (ground arith))
  free_nodes_lem (suc fuel) {back} {n = n} h (more {p} {q} {n = m} {y = y} {cs} nz at o e out c) end
        stop enough =
      let valid : (p == 0) ≡ false = ground arith in
      let rest = (q, y) ∷ cs in
      let onward : (m.next == 0) ≡ false = ground (arith, front-ne-zero c) in
      let freed = write h p none in
      let spared : (a : Ptr) → has a rest ≡ true → freed a ≡ h a =
        λ a i. write-ne h p none a (has-ne rest out i) in
      let (g, done, kept, outside, gone) =
        free_nodes_lem fuel freed (frame c spared) (spared back (has-back c) ∙ end) stop
          (omega arith) in
      (
        g,
        rw (valid, at, onward, e, done),
        kept,
        (λ a is_out. outside a (ground arith) ∙ write-ne h p none a (ground arith)),
        (λ a i ne. elim (Bool-cases (a == p)) [
          | inl here ↦
              let is : a ≡ p = ground arith in ap g is ∙ outside p out ∙ write_self h p none
          | inr elsewhere ↦ gone a (ground arith) ne
        ]),
      )

  -- On a list of at least one node, the last of which has no successor, `clear` with one round for each
  -- node leaves an empty list and frees every node but the last, which nothing points to any more.
  pub clear-leaks :
      (fuel : ℕ) (s : LinkedList T) {n : Node T} {cs : Cells T}
      → Chain s.heap s.back s.front cs
      → s.heap s.back ≡ some n
      → n.next ≡ 0
      → length cs < fuel
      → (t : LinkedList T) × (clear fuel s ≡ ok t)
        × IsList t []
        × (t.heap s.back ≡ some n)
        × ((a : Ptr) → has a cs ≡ true → a ≢ s.back → t.heap a ≡ none)
  unfolding clear empty
  clear-leaks fuel s c end stop enough =
      let (g, done, kept, outside, gone) = free_nodes_lem fuel s.heap c end stop enough in
      (empty g, rw done, no_nodes refl refl refl, kept, gone)

  -- The destructor reads through the front pointer before any test, and does not move it: an empty list,
  -- and any list with a second node, is a fault.
  pub destroy-fault :
      (fuel : ℕ) (s : LinkedList T) {cs : Cells T}
      → IsList s cs
      → length cs ≢ 1
      → destroy (suc (suc fuel)) s ≡ fault
  unfolding destroy
  destroy-fault fuel s (no_nodes f b num) many = rw f refl
  destroy-fault fuel s (nodes (last e nz at o) num) many = absurd (many refl)
  destroy-fault fuel s (nodes (more {n = n} nz at o e out c) num) many =
      let valid : (s.front == 0) ≡ false = ground arith in
      let onward : (n.next == 0) ≡ false = ground (arith, front-ne-zero c) in
      let same : (s.front == s.front) ≡ true = ground arith in rw (valid, at, onward, same) refl
