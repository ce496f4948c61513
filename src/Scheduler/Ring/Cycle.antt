-- ===== src/Scheduler/Ring/Cycle.antt =====
-- A ring seen from another of its processes.
use literate_os.Common.{
  ◌≡◌, refl, sym, subst, ap, ◌∙◌, ◌≢◌, inl, inr, true, false, Option, some, List, [], ◌∷◌, ◌++◌,
  ◌==◌, ◌||◌, Bool-cases, arith,
}
use literate_os.Scheduler.{Ptr, Process}
use literate_os.Scheduler.Ring.{has, Distinct, Seg, IsRing}

pub has-append : (a : Ptr) (ps qs : List Ptr) → has a (ps ++ qs) ≡ (has a ps || has a qs)
has-append a [] qs = refl
has-append a (p ∷ ps) qs = ground (arith, has-append a ps qs)

-- Where the lists `ps` and `qs` are distinct, so are they in the other order.
pub Distinct-parts :
    (ps qs : List Ptr)
    → Distinct (ps ++ qs)
    → Distinct ps × Distinct qs × ((a : Ptr) → has a ps ≡ true → has a qs ≡ false)
Distinct-parts [] qs d = (tt, d, λ a h. cc)
Distinct-parts (p ∷ ps) qs (out, d) =
    let (l, r, apart) = Distinct-parts ps qs d in
    let parts : (has p ps || has p qs) ≡ false = sym (has-append p ps qs) ∙ out in
    (
      (ground arith, l),
      r,
      λ a h. elim (Bool-cases (a == p)) [
        | inl same ↦ ground arith
        | inr other ↦ apart a (ground arith)
      ],
    )

Distinct-join :
    (ps qs : List Ptr)
    → Distinct ps
    → Distinct qs
    → ((a : Ptr) → has a ps ≡ true → has a qs ≡ false)
    → Distinct (ps ++ qs)
Distinct-join [] qs l r apart = r
Distinct-join (p ∷ ps) qs (out, l) r apart =
    let apart_p : has p qs ≡ false = apart p (ground arith) in
    (has-append p ps qs ∙ ground arith, Distinct-join ps qs l r (λ a h. apart a (ground arith)))

pub Distinct-swap : (ps qs : List Ptr) → Distinct (ps ++ qs) → Distinct (qs ++ ps)
Distinct-swap ps qs d =
    let (l, r, apart) = Distinct-parts ps qs d in
    Distinct-join qs ps r l λ a h. elim (Bool-cases (has a ps)) [
      | inl both ↦ ground (arith, apart a both)
      | inr outside ↦ outside
    ]

pub Seg-split :
    (h : Ptr → Option Process) (p end : Ptr) (ps qs : List Ptr)
    → Seg h p (ps ++ qs) end
    → (mid : Ptr) × Seg h p ps mid × Seg h mid qs end
Seg-split h p end [] qs seg = (p, refl, seg)
Seg-split h p end (r ∷ ps) qs (e, nz, x, at, rest) =
    let (mid, l, r) = Seg-split h x.next end ps qs rest in (mid, (e, nz, x, at, l), r)

Seg-join :
    (h : Ptr → Option Process) (p mid end : Ptr) (ps qs : List Ptr)
    → Seg h p ps mid
    → Seg h mid qs end
    → Seg h p (ps ++ qs) end
Seg-join h p mid end [] qs e r = subst (λ a. Seg h a qs end) (sym e) r
Seg-join h p mid end (q ∷ ps) qs (e, nz, x, at, rest) r =
    (e, nz, x, at, Seg-join h x.next mid end ps qs rest r)

-- A ring from `p` on, through `q`, is a ring from `q` on.
pub rotate-IsRing :
    (h : Ptr → Option Process) (p q : Ptr) (ps qs : List Ptr)
    → IsRing h p (ps ++ q ∷ qs)
    → IsRing h q (qs ++ p ∷ ps)
rotate-IsRing h p q ps qs ring =
    let (mid, l, r) = Seg-split h p p (p ∷ ps) (q ∷ qs) ring.closed in
    let e : mid ≡ q = r.0 in
    record {
      closed =
          subst (λ a. Seg h a ((q ∷ qs) ++ p ∷ ps) a) e
            (Seg-join h mid p mid (q ∷ qs) (p ∷ ps) r l);
      distinct = Distinct-swap (p ∷ ps) (q ∷ qs) ring.distinct;
    }

-- Where an address occurs in a list.
pub has-split :
    (a : Ptr) (ps : List Ptr)
    → has a ps ≡ true
    → (before : List Ptr) × (after : List Ptr) × (ps ≡ before ++ a ∷ after)
has-split a [] h = absurd (cc h)
has-split a (p ∷ ps) h = elim (Bool-cases (a == p)) [
  | inl same ↦ ([], ps, let e : a ≡ p = ground arith in ap (λ q. q ∷ ps) (sym e))
  | inr other ↦
      let (before, after, e) = has-split a ps (ground arith) in
      (p ∷ before, after, ap (λ qs. p ∷ qs) e)
]

-- Every process of a segment is in memory.
pub Seg-member :
    (h : Ptr → Option Process) (p end a : Ptr) (ps : List Ptr)
    → Seg h p ps end
    → has a ps ≡ true
    → (a ≢ 0) × (x : Process) × (h a ≡ some x)
Seg-member h p end a [] seg m = absurd (cc m)
Seg-member h p end a (q ∷ qs) (e, nz, x, at, rest) m = elim (Bool-cases (a == q)) [
  | inl same ↦ (ground arith, x, ground arith)
  | inr other ↦ Seg-member h x.next end a qs rest (ground arith)
]
