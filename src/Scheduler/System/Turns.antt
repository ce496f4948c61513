-- ===== src/Scheduler/System/Turns.antt =====
-- With the scheduler unlocked, every process of the queue gets its turn.
use literate_os.Common.{
  ℕ, zero, suc, ◌+◌, ◌≤◌, ◌≡◌, ◌≢◌, refl, sym, subst, ap, ◌∙◌, inl, inr, true, false, Option, none,
  some, List, [], ◌∷◌, ◌++◌, ◌==◌, Bool-cases, arith, length, fun_ext,
}
use literate_os.Common.Run.{Run, ok, ok-inj, >>=-assoc, ◌>>=◌, >>=-ok}
use literate_os.Scheduler.{Ptr, Process, Cpu, Scheduler, load}
use literate_os.Scheduler.Ring.{has, Distinct, Seg, IsRing}
use literate_os.Scheduler.Ring.Cycle.{
  has-append, has-split, rotate-IsRing, Seg-split, Distinct-parts,
}
use literate_os.Scheduler.Tick.{
  Here, after_first, resumed_eip, switched, switch_to, expire, tick, ticks, ticks-switch,
}
use literate_os.Scheduler.System.{WellFormed}
use literate_os.Scheduler.System.Entry.{member}

abbrev pub slice_of : Option Process → ℕ
slice_of none = 0
slice_of (some x) = x.time_slice

-- The ticks that pass until all of these processes have had their turn, in this order.
abbrev pub slices : (Ptr → Option Process) → List Ptr → ℕ
slices h [] = 0
slices h (p ∷ ps) = suc (slice_of (h p)) + slices h ps

pub slices-append :
    (h : Ptr → Option Process) (ps qs : List Ptr) → slices h (ps ++ qs) ≡ slices h ps + slices h qs
slices-append h [] qs = omega arith
slices-append h (p ∷ ps) qs = omega (arith, slices-append h ps qs)

slices-same :
    (h h' : Ptr → Option Process) (ps : List Ptr)
    → ((a : Ptr) → has a ps ≡ true → h' a ≡ h a)
    → slices h' ps ≡ slices h ps
slices-same h h' [] same = refl
slices-same h h' (p ∷ ps) same =
    omega (
      arith,
      ap slice_of (same p (ground arith)),
      slices-same h h' ps (λ a m. same a (ground arith)),
    )

Seg-same :
    (h h' : Ptr → Option Process) (p end : Ptr) (ps : List Ptr)
    → Seg h p ps end
    → ((a : Ptr) → has a ps ≡ true → h' a ≡ h a)
    → Seg h' p ps end
Seg-same h h' p end [] seg same = seg
Seg-same h h' p end (q ∷ qs) (e, nz, x, at, rest) same = (
  e,
  nz,
  x,
  same p (ground arith) ∙ at,
  Seg-same h h' x.next end qs rest (λ a m. same a (ground arith)),
)

-- The interruptions behind the first `m`.
abbrev pub shift : ℕ → (ℕ → Here) → ℕ → Here
shift zero here = here
shift (suc m) here = shift m (after_first here)

shift-fresh :
    (m : ℕ) (here : ℕ → Here)
    → ((i : ℕ) → (here i).eip ≢ resumed_eip)
    → (i : ℕ) → (shift m here i).eip ≢ resumed_eip
shift-fresh zero here fresh i = fresh i
shift-fresh (suc m) here fresh i = shift-fresh m (after_first here) (λ i. fresh (suc i)) i

ticks-add :
    (m n : ℕ) (here : ℕ → Here) (s : Scheduler)
    → ticks (m + n) here s ≡ (ticks m here s >>= λ s'. ticks n (shift m here) s')
unfolding ticks
ticks-add zero n here s = ap (λ k. ticks k here s) (omega arith)
ticks-add (suc m) n here s =
    let e : suc m + n ≡ suc (m + n) = omega arith in
    ap (λ k. ticks k here s) e
    ∙ ap (λ (f : Scheduler → Run Scheduler). tick (here 0) s >>= f)
        (fun_ext (ticks-add m n (after_first here)))
    ∙ sym (>>=-assoc (tick (here 0) s) (ticks m (after_first here)) (ticks n (shift (suc m) here)))

-- A tick leaves the lock as it is.
tick-locked :
    (here : Here) (s : Scheduler) {s' : Scheduler} → tick here s ≡ ok s' → s'.locked ≡ s.locked
unfolding tick expire switch_to load
tick-locked here s run = ground (arith, run)

ticks-locked_same :
    (n : ℕ) (here : ℕ → Here) (s : Scheduler) {s' : Scheduler}
    → ticks n here s ≡ ok s'
    → s'.locked ≡ s.locked
unfolding ticks
ticks-locked_same zero here s run = ap (λ (t : Scheduler). t.locked) (sym (ok-inj run))
ticks-locked_same (suc n) here s run =
    let (t, first, rest) = >>=-ok {m = tick (here 0) s} run in
    ticks-locked_same n (after_first here) t rest ∙ tick-locked (here 0) s first

-- From the current process on through `before` to `q`.
turns :
    (here : ℕ → Here) (s : Scheduler) (before : List Ptr) (q : Ptr) (y : Process)
    → s.locked ≡ false
    → ((i : ℕ) → (here i).eip ≢ resumed_eip)
    → Seg s.procs s.current (s.current ∷ before) q
    → Distinct (s.current ∷ before)
    → has q (s.current ∷ before) ≡ false
    → q ≢ 0
    → s.procs q ≡ some y
    → (s' : Scheduler) × (ticks (slices s.procs (s.current ∷ before)) here s ≡ ok s')
      × (s'.current ≡ q)
      × (s'.cpu ≡ record (switched y s.cpu) { switches = s.cpu.switches + suc (length before) })
turns here s [] q y unlocked fresh (e, nz, x, at, last) distinct out q_nz at_q =
    let other : x.next ≢ s.current = ground (arith, last) in
    let (s', run, current, cpu, kept, same) =
      ticks-switch x.time_slice here s x y unlocked fresh nz at refl (ground (arith, last)) other
        (ap s.procs last ∙ at_q) in
    let count : slices s.procs (s.current ∷ []) ≡ suc x.time_slice =
      omega (arith, ap slice_of at) in
    (s', ap (λ k. ticks k here s) count ∙ run, current ∙ last, cpu)
turns here s (r ∷ rs) q y unlocked fresh (e, nz, x, at, (e', r_nz, z, at_r, rest))
      (cur_out, distinct) out q_nz at_q =
    let other : x.next ≢ s.current = ground arith in
    let (s₁, run, current, cpu, kept, same) =
      ticks-switch x.time_slice here s x z unlocked fresh nz at refl r_nz other at_r in
    let now : s₁.current ≡ r = current ∙ e' in
    let unchanged : (a : Ptr) → has a (r ∷ rs) ≡ true → s₁.procs a ≡ s.procs a = λ a m. same a (
      let ne : a ≢ s.current = λ eq. absurd (cc (sym m ∙ ap (λ b. has b (r ∷ rs)) eq ∙ cur_out)) in
      ne) in
    let seg : Seg s.procs x.next (r ∷ rs) q = (e', r_nz, z, at_r, rest) in
    let seg₁ : Seg s₁.procs s₁.current (s₁.current ∷ rs) q =
      subst (λ a. Seg s₁.procs a (a ∷ rs) q) (sym now)
        (subst (λ a. Seg s₁.procs a (r ∷ rs) q) e'
          (Seg-same s.procs s₁.procs x.next q (r ∷ rs) seg unchanged)) in
    let (s', run', current', cpu') =
      turns (shift (suc x.time_slice) here) s₁ rs q y
        (ticks-locked_same (suc x.time_slice) here s run ∙ unlocked)
        (shift-fresh (suc x.time_slice) here fresh) seg₁
        (subst (λ a. Distinct (a ∷ rs)) (sym now) distinct)
        (subst (λ a. has q (a ∷ rs) ≡ false) (sym now) (ground arith)) q_nz
        (same q (ground arith) ∙ at_q) in
    let count : slices s.procs (s.current ∷ r ∷ rs)
        ≡ suc x.time_slice + slices s₁.procs (s₁.current ∷ rs) =
      omega (
        arith,
        ap slice_of at,
        ap (λ a. slices s₁.procs (a ∷ rs)) now,
        slices-same s.procs s₁.procs (r ∷ rs) unchanged,
      ) in
    let switches : s₁.cpu.switches + suc (length rs) ≡ s.cpu.switches + suc (suc (length rs)) =
      omega (arith, ap (λ (c : Cpu). c.switches) cpu) in
    (
      s',
      ap (λ k. ticks k here s) count
          ∙ ticks-add (suc x.time_slice) (slices s₁.procs (s₁.current ∷ rs)) here s
          ∙ ap
              (λ (m : Run Scheduler).
                m >>= ticks (slices s₁.procs (s₁.current ∷ rs)) (shift (suc x.time_slice) here))
              run
          ∙ run',
      current',
      cpu' ∙ ap (λ n. record (switched y s.cpu) { switches = n }) switches,
    )

-- The queue from the process `p` of it on.
From : (h : Ptr → Option Process) (start p : Ptr) (ps : List Ptr) → Type 0
From h start p ps =
    (qs : List Ptr) × IsRing h p qs
    × ((a : Ptr) → has a (start ∷ ps) ≡ true → has a (p ∷ qs) ≡ true)
    × (slices h (p ∷ qs) ≡ slices h (start ∷ ps))

From-inside :
    (h : Ptr → Option Process) (start p : Ptr) (before after : List Ptr)
    → IsRing h start (before ++ p ∷ after)
    → From h start p (before ++ p ∷ after)
unfolding From
From-inside h start p before after ring = (
  after ++ start ∷ before,
  rotate-IsRing h start p before after ring,
  λ a m. ground (arith, has-append a before (p ∷ after), has-append a after (start ∷ before)),
  omega (arith, slices-append h before (p ∷ after), slices-append h after (start ∷ before)),
)

From-member :
    (h : Ptr → Option Process) (start p : Ptr) (ps : List Ptr)
    → IsRing h start ps
    → has p (start ∷ ps) ≡ true
    → From h start p ps
unfolding From
From-member h start p ps ring m = elim (Bool-cases (p == start)) [
  | inl same ↦
      let e : start ≡ p = ground arith in
      subst (λ p. From h start p ps) e (ps, ring, λ a m. m, refl)
  | inr other ↦
      let in_ps : has p ps ≡ true = ground arith in
      let (before, after, e) = has-split p ps in_ps in
      subst (From h start p) (sym e)
        (From-inside h start p before after (subst (IsRing h start) e ring))
]

-- If the scheduler is unlocked and no tick finds the resumed `eip`, wherever each of them interrupts, every
-- process of the queue other than the current one is switched to, with its registers and page directory,
-- after at most as many ticks as there are left in the slices of all processes, and one for each.
pub ticks-turn :
    (here : ℕ → Here) (s : Scheduler) (ps : List Ptr) (q : Ptr) (y : Process)
    → WellFormed s ps
    → s.locked ≡ false
    → ((i : ℕ) → (here i).eip ≢ resumed_eip)
    → has q (s.queue_start ∷ ps) ≡ true
    → q ≢ s.current
    → s.procs q ≡ some y
    → (n : ℕ) × (s' : Scheduler) × (n ≤ slices s.procs (s.queue_start ∷ ps))
      × (ticks n here s ≡ ok s')
      × (s'.current ≡ q)
      × (s'.cpu ≡ record (switched y s.cpu) { switches = s'.cpu.switches })
unfolding From
ticks-turn here s ps q y w unlocked fresh inside other at =
    let (qs, ring, among, total) = From-member s.procs s.queue_start s.current ps w.ring w.runs in
    let here' : has q (s.current ∷ qs) ≡ true = among q inside in
    let (before, after, e) = has-split q qs (ground arith) in turn qs before after e ring total
  where
    turn :
        (qs before after : List Ptr)
        → qs ≡ before ++ q ∷ after
        → IsRing s.procs s.current qs
        → slices s.procs (s.current ∷ qs) ≡ slices s.procs (s.queue_start ∷ ps)
        → (n : ℕ) × (s' : Scheduler) × (n ≤ slices s.procs (s.queue_start ∷ ps))
          × (ticks n here s ≡ ok s')
          × (s'.current ≡ q)
          × (s'.cpu ≡ record (switched y s.cpu) { switches = s'.cpu.switches })
    turn qs before after e ring total =
        let whole = subst (IsRing s.procs s.current) e ring in
        let (mid, first, rest) =
          Seg-split s.procs s.current s.current (s.current ∷ before) (q ∷ after) whole.closed in
        let to_q : mid ≡ q = rest.0 in
        let (distinct, others, apart) =
          Distinct-parts (s.current ∷ before) (q ∷ after) whole.distinct in
        let out : has q (s.current ∷ before) ≡ false =
          elim (Bool-cases (has q (s.current ∷ before))) [
            | inl both ↦ let no_more = apart q both in absurd (ground arith)
            | inr outside ↦ outside
          ] in
        let q_nz : q ≢ 0 = (member w q inside).0 in
        let (s', run, current, cpu) =
          turns here s before q y unlocked fresh
            (subst (Seg s.procs s.current (s.current ∷ before)) to_q first) distinct out q_nz at in
        (
          slices s.procs (s.current ∷ before),
          s',
          omega (
            arith,
            total,
            ap (λ zs. slices s.procs (s.current ∷ zs)) e,
            slices-append s.procs (s.current ∷ before) (q ∷ after),
          ),
          run,
          current,
          cpu ∙ ap (λ (c : Cpu). record (switched y s.cpu) { switches = c.switches }) (sym cpu),
        )
