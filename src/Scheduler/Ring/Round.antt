-- ===== src/Scheduler/Ring/Round.antt =====
-- The ready queue without the process from which it is seen: the abstract view of the ring.
use literate_os.Common.{
  ◌≡◌, refl, sym, ap, ap₂, ◌∙◌, inl, inr, true, false, Option, some, List, [], ◌∷◌, ◌++◌, ◌==◌,
  if◌then◌else◌, Bool-cases, arith, subst,
}
use mathlib.Core.Quot
use mathlib.Core.Quot.{Quot, Quot-set}
use literate_os.Scheduler.{Ptr, Process}
use literate_os.Scheduler.Ring.{has, Seg, IsRing}
use literate_os.Scheduler.Ring.Cycle.{rotate-IsRing, has-split}

abbrev pub Rotated : List Ptr → List Ptr → Type 0
Rotated xs ys =
    (before : List Ptr) × (after : List Ptr) × (xs ≡ before ++ after) × (ys ≡ after ++ before)

-- The processes in their order around the ring.
abbrev pub Round : Type 0
Round = Quot Rotated

abbrev pub round : List Ptr → Round
round ps = Quot.mk ps

-- From one process to another the `next` pointers lead one way only.
Seg-unique :
    (h : Ptr → Option Process) (p end : Ptr) (ps qs : List Ptr)
    → Seg h p ps end
    → Seg h p qs end
    → has end ps ≡ false
    → has end qs ≡ false
    → ps ≡ qs
Seg-unique h p end [] [] seg seg' out out' = refl
Seg-unique h p end [] (q ∷ qs) seg (e, nz, y, at, rest) out out' = absurd (ground (arith, seg, e))
Seg-unique h p end (q ∷ ps) [] (e, nz, y, at, rest) seg out out' = absurd (ground (arith, seg, e))
Seg-unique h p end (q ∷ ps) (r ∷ qs) (e, nz, x, at, seg) (e', nz', y, at', seg') out out' =
    let same : some x ≡ some y = sym at ∙ at' in
    let next : y.next ≡ x.next = ground (arith, same) in
    ap₂ (λ a bs. a ∷ bs) (sym e ∙ e')
      (Seg-unique h x.next end ps qs seg (subst (λ a. Seg h a qs end) next seg') (ground arith)
        (ground arith))

pub IsRing_unique :
    {h : Ptr → Option Process} {p : Ptr} {ps qs : List Ptr}
    → IsRing h p ps
    → IsRing h p qs
    → ps ≡ qs
IsRing_unique {h} {p} {ps} {qs} ring ring' =
    let (e, nz, x, at, seg) = ring.closed in
    let (e', nz', y, at', seg') = ring'.closed in
    let same : some x ≡ some y = sym at ∙ at' in
    let next : y.next ≡ x.next = ground (arith, same) in
    Seg-unique h x.next p ps qs seg (subst (λ a. Seg h a qs p) next seg') (ring.distinct.0)
      (ring'.distinct.0)

-- The view is the same from every process of the queue.
pub round-view :
    {h : Ptr → Option Process} {p q : Ptr} {ps qs : List Ptr}
    → IsRing h p ps
    → IsRing h q qs
    → has q (p ∷ ps) ≡ true
    → round (p ∷ ps) ≡ round (q ∷ qs)
round-view {h} {p} {q} {ps} {qs} ring ring' m = elim (Bool-cases (q == p)) [
  | inl same ↦
      let e : q ≡ p = ground arith in
      ap round
        (ap₂ (λ a bs. a ∷ bs) (sym e) (IsRing_unique ring (subst (λ a. IsRing h a qs) e ring')))
  | inr other ↦
      let (before, after, e) = has-split q ps (ground arith) in
      let turned = rotate-IsRing h p q before after (subst (IsRing h p) e ring) in
      ap (λ bs. round (p ∷ bs)) e
      ∙ Quot.sound (p ∷ before, q ∷ after, refl, refl)
      ∙ ap (λ bs. round (q ∷ bs)) (IsRing_unique turned ring')
]

-- The list without a process.
abbrev pub without : Ptr → List Ptr → List Ptr
without p [] = []
without p (q ∷ qs) = if p == q then without p qs else q ∷ without p qs

without-append : (p : Ptr) (qs rs : List Ptr) → without p (qs ++ rs) ≡ without p qs ++ without p rs
without-append p [] rs = refl
without-append p (q ∷ qs) rs = elim (Bool-cases (p == q)) [
  | inl hit ↦ rw hit (without-append p qs rs)
  | inr miss ↦ rw miss (ap (λ bs. q ∷ bs) (without-append p qs rs))
]

without-outside : (p : Ptr) (qs : List Ptr) → has p qs ≡ false → without p qs ≡ qs
without-outside p [] out = refl
without-outside p (q ∷ qs) out =
    let miss : (p == q) ≡ false = ground arith in
    rw miss (ap (λ bs. q ∷ bs) (without-outside p qs (ground arith)))

Rotated-without :
    (p : Ptr) (xs ys : List Ptr) → Rotated xs ys → Rotated (without p xs) (without p ys)
Rotated-without p xs ys (before, after, e, e') = (
  without p before,
  without p after,
  ap (without p) e ∙ without-append p before after,
  ap (without p) e' ∙ without-append p after before,
)

-- A process leaves.
pub leave : Ptr → Round → Round
leave p =
    Quot.lift Quot-set (λ ps. round (without p ps))
      (λ xs ys turned. Quot.sound (Rotated-without p xs ys turned))

-- The first process of a ring leaves it.
pub leave-first :
    (p q : Ptr) (qs : List Ptr)
    → has p (q ∷ qs) ≡ false
    → leave p (round (p ∷ q ∷ qs)) ≡ round (q ∷ qs)
unfolding leave
leave-first p q qs out =
    let hit : (p == p) ≡ true = ground arith in rw hit (ap round (without-outside p (q ∷ qs) out))

-- The second process of a ring leaves it.
pub leave-second :
    (p q : Ptr) (qs : List Ptr)
    → has q (p ∷ qs) ≡ false
    → leave q (round (p ∷ q ∷ qs)) ≡ round (p ∷ qs)
unfolding leave
leave-second p q qs out =
    let miss : (q == p) ≡ false = ground arith in
    let hit : (q == q) ≡ true = ground arith in
    rw (miss, hit) (ap (λ bs. round (p ∷ bs)) (without-outside q qs (ground arith)))
