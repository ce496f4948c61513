-- ===== src/LinkedList/Refine.antt =====
-- A list in memory answers every sequence of calls as the sequence of its objects does.
use literate_os.Common.{
  suc, ◌+◌, ◌<◌, ◌≤◌, ◌^◌, ◌≡◌, refl, sym, ap, ◌∙◌, ◌≢◌, true, false, ◌||◌, ◌==◌, leb, Option, List,
  [], ◌∷◌, ◌++◌, length, length-append, get_or, arith, if◌then◌else◌,
}
use literate_os.Common.Run.{Run, ok, fault, out_of_fuel, ◌>>=◌}
use literate_os.LinkedList.{Ptr, Node, LinkedList, empty}
use literate_os.LinkedList.Chain.{Cells, has, objects, objects-append, length-objects}
use literate_os.LinkedList.Walk.{put, objects-put, has-put, length-put}
use literate_os.LinkedList.Operations.{IsList, no_nodes, add_back-IsList, add_front-IsList}
use literate_os.LinkedList.Access.{
  get_at-IsList, replace_at-IsList, get_length-IsList, get_front-IsList, get_back-IsList,
  remove_at-IsList,
}
use literate_os.LinkedList.Calls.{
  Call, push_back, push_front, read, replace, count, remove, front_object, back_object, Answer,
  done, object, number, step, run, elem, allocates,
}
use literate_os.LinkedList.Sequence
use literate_os.LinkedList.Sequence.{first, final}

-- One call on a list in memory, and on the sequence of its objects.
data Agree {T : Type 0} (zeroed : T) (c : Call T) (s : LinkedList T) (cs : Cells T)
    (used : List Ptr) : Type 0 where
  both_fault :
      step zeroed c s ≡ fault
      → Sequence.step zeroed c (objects cs) ≡ fault
      → Agree zeroed c s cs used
  both_run_out :
      step zeroed c s ≡ out_of_fuel
      → Sequence.step zeroed c (objects cs) ≡ out_of_fuel
      → Agree zeroed c s cs used
  both_answer :
      (a : Answer T) (t : LinkedList T) (ds : Cells T) (later : List Ptr)
      → step zeroed c s ≡ ok (a, t)
      → Sequence.step zeroed c (objects cs) ≡ ok (a, objects ds)
      → IsList t ds
      → length ds ≤ suc (length cs)
      → ((p : Ptr) → has p ds ≡ true → elem p later ≡ true)
      → ((calls : List (Call T)) → allocates used (c ∷ calls) ≡ true → allocates later calls ≡ true)
      → Agree zeroed c s cs used

has-append :
    {T : Type 0} (a p : Ptr) (x : T) (cs : Cells T)
    → has a (cs ++ (p, x) ∷ []) ≡ true
    → ((a == p) || has a cs) ≡ true
has-append a p x [] i = ground arith
has-append a p x ((q, y) ∷ cs) i = ground (arith, has-append a p x cs)

module _ {T : Type 0} (zeroed : T) where
  -- A call that only looks at the list.
  look :
      (c : Call T) (s : LinkedList T) {cs : Cells T} (used : List Ptr) (m : Run T)
      → IsList s cs
      → ((p : Ptr) → has p cs ≡ true → elem p used ≡ true)
      → ((calls : List (Call T)) → allocates used (c ∷ calls) ≡ true → allocates used calls ≡ true)
      → step zeroed c s ≡ (m >>= λ x. ok (object x, s))
      → Sequence.step zeroed c (objects cs) ≡ (m >>= λ x. ok (object x, objects cs))
      → Agree zeroed c s cs used
  look c s {cs} used (ok x) l covers spare e f =
      both_answer (object x) s cs used e f l (omega arith) covers spare
  look c s used fault l covers spare e f = both_fault e f
  look c s used out_of_fuel l covers spare e f = both_run_out e f

  agree :
      (c : Call T) (calls : List (Call T)) (s : LinkedList T) {cs : Cells T} (used : List Ptr)
      → IsList s cs
      → ((p : Ptr) → has p cs ≡ true → elem p used ≡ true)
      → allocates used (c ∷ calls) ≡ true
      → suc (length cs) < 2 ^ 32
      → Agree zeroed c s cs used
  unfolding step Sequence.step
  agree (push_back fresh stale x) calls s {cs} used l covers new small =
      let nz : fresh ≢ 0 = ground arith in
      let unused : has fresh cs ≡ false = ground (arith, covers fresh) in
      let (t, added, m) = add_back-IsList fresh nz stale x s l unused small in
      both_answer done t (cs ++ (fresh, x) ∷ []) (fresh ∷ used) (rw added)
        (rw (objects-append cs ((fresh, x) ∷ []))) m
        (omega (arith, length-append cs ((fresh, x) ∷ [])))
        (λ p i. ground (arith, has-append p fresh x cs i, covers p)) (λ rest ok_rest. ground arith)
  agree (push_front fresh x) calls s {cs} used l covers new small =
      let nz : fresh ≢ 0 = ground arith in
      let unused : has fresh cs ≡ false = ground (arith, covers fresh) in
      let (t, added, m) = add_front-IsList fresh nz x s l unused small in
      both_answer done t ((fresh, x) ∷ cs) (fresh ∷ used) (rw added) refl m (omega arith)
        (λ p i. ground (arith, covers p)) (λ rest ok_rest. ground arith)
  agree (read pos) calls s {cs} used l covers new small =
      look (read pos) s used (ok (get_or (objects cs) pos zeroed)) l covers (λ rest e. e)
        (rw (get_at-IsList zeroed pos s l)) refl
  agree (replace pos x) calls s {cs} used l covers new small =
      let (t, replaced, m) = replace_at-IsList pos x s l in
      both_answer done t (put cs pos x) used (rw replaced) (rw (objects-put cs pos x)) m
        (omega (arith, length-put cs pos x)) (λ p i. covers p (sym (has-put p cs pos x) ∙ i))
        (λ rest e. e)
  agree count calls s {cs} used l covers new small =
      both_answer (number (length cs)) s cs used (rw (get_length-IsList s l))
        (rw (length-objects cs)) l (omega arith) covers (λ rest e. e)
  agree (remove pos) calls s {cs} used l covers new small =
      look (remove pos) s used (if leb (length (objects cs)) pos then ok zeroed else fault) l covers
        (λ rest e. e) (rw (remove_at-IsList zeroed pos s l)) refl
  agree front_object calls s {cs} used l covers new small =
      look front_object s used (first (objects cs)) l covers (λ rest e. e)
        (rw (get_front-IsList s l)) refl
  agree back_object calls s {cs} used l covers new small =
      look back_object s used (final (objects cs)) l covers (λ rest e. e) (rw (get_back-IsList s l))
        refl

  runs_agree :
      (calls : List (Call T)) (s : LinkedList T) {cs : Cells T} (used : List Ptr)
      → IsList s cs
      → ((p : Ptr) → has p cs ≡ true → elem p used ≡ true)
      → allocates used calls ≡ true
      → length cs + length calls < 2 ^ 32
      → run zeroed calls s ≡ Sequence.run zeroed calls (objects cs)
  unfolding run Sequence.run
  runs_agree [] s used l covers new small = refl
  runs_agree (c ∷ calls) s {cs} used l covers new small =
      elim (agree c calls s used l covers new (omega arith)) [
        | both_fault e f ↦ rw (e, f)
        | both_run_out e f ↦ rw (e, f)
        | both_answer a t ds later e f m longer covered spare ↦
            rw (e, f)
              (ap (λ r. r >>= λ answers. ok (a ∷ answers))
                (runs_agree calls t later m covered (spare calls new) (omega arith)))
      ]

  -- A list that starts empty answers any calls of `add_back`, `add_front`, `get_at`, `replace_at`, `get_length`,
  -- `remove_at`, `get_front` and `get_back` as a sequence of objects that starts empty does, faults included,
  -- if the addresses that `kmalloc` returns are nonzero and distinct and there are fewer than 2^32 calls.
  pub run_refines :
      (heap : Ptr → Option (Node T)) (calls : List (Call T))
      → allocates [] calls ≡ true
      → length calls < 2 ^ 32
      → run zeroed calls (empty heap) ≡ Sequence.run zeroed calls []
  unfolding empty
  run_refines heap calls new small =
      runs_agree calls (empty heap) [] (no_nodes refl refl refl) (λ p i. absurd (cc i)) new
        (omega arith)
