-- ===== src/Devices/Ahci.antt =====
-- The command engine of an AHCI port: `startCMD` and `stopCMD` of Kernel/include/ahci.h.
--
-- `value t ws` is what the command register holds at time t after the values `ws`, newest first, were
-- written to it. A read takes one unit of time.
use literate_os.Common.{
  ℕ, zero, suc, ◌+◌, ◌<◌, ◌≡◌, refl, bit_and, bit_or, List, ◌∷◌, ◌==◌, if◌then◌else◌, arith,
  Bool-cases, inl, inr,
}
use literate_os.Common.Bits.{bit, not32, bit-bit_and, bit-bit_or, bit-le-one}
use literate_os.Common.Run.{Run, ok, out_of_fuel, ◌>>=◌, >>=-eq-ok}

abbrev pub px_cmd_st : ℕ
px_cmd_st = 0x0001

abbrev pub px_cmd_fre : ℕ
px_cmd_fre = 0x0010

abbrev pub px_cmd_cr : ℕ
px_cmd_cr = 0x8000

pub record Port : Type 0 where
  pub time : ℕ
  pub writes : List ℕ

module _ (value : ℕ → List ℕ → ℕ) where
  -- port -> cmd, after one more write of what `f` makes of it.
  abbrev pub update : (f : ℕ → ℕ) → Port → Port
  update f s = record { time = s.time + 1; writes = f (value s.time s.writes) ∷ s.writes }

  -- The loop that reads the register until CR is clear.
  pub wait_stopped : (fuel : ℕ) → Port → Run Port
  wait_stopped zero s = out_of_fuel
  wait_stopped (suc fuel) s =
      let later = record s { time = s.time + 1 } in
      let rest = wait_stopped fuel later in
      if bit_and (value s.time s.writes) px_cmd_cr == 0 then ok later else rest

  pub start_cmd : (fuel : ℕ) → Port → Run Port
  unfolding wait_stopped
  start_cmd fuel s = do
    s ← wait_stopped fuel (update (λ v. bit_and v (not32 px_cmd_st)) s)
    ok (update (λ v. bit_or v px_cmd_st) (update (λ v. bit_or v px_cmd_fre) s))

  pub stop_cmd : (fuel : ℕ) → Port → Run Port
  unfolding wait_stopped
  stop_cmd fuel s = do
    s ← wait_stopped fuel (update (λ v. bit_and v (not32 px_cmd_st)) s)
    ok (update (λ v. bit_and v (not32 px_cmd_fre)) s)

  -- The engine stops within `fuel` reads after 0 was written to ST.
  abbrev pub Stops : (fuel : ℕ) → Type 0
  Stops fuel =
      (t w : ℕ) (ws : List ℕ)
      → bit 0 w ≡ 0
      → (k : ℕ) × (k < fuel) × (bit_and (value (t + k) (w ∷ ws)) px_cmd_cr ≡ 0)

  -- ST and FRE read as they were written last.
  abbrev pub Keeps : Type 0
  Keeps =
      (t w : ℕ) (ws : List ℕ)
      → (bit 0 (value t (w ∷ ws)) ≡ bit 0 w) × (bit 4 (value t (w ∷ ws)) ≡ bit 4 w)

  wait_stopped-ends :
      (k fuel : ℕ) (s : Port)
      → k < fuel
      → bit_and (value (s.time + k) s.writes) px_cmd_cr ≡ 0
      → (t : ℕ) × (wait_stopped fuel s ≡ ok (record { time = t + 1; writes = s.writes }))
        × (bit_and (value t s.writes) px_cmd_cr ≡ 0)
  unfolding wait_stopped
  wait_stopped-ends k zero s lt stopped = absurd (omega arith)
  wait_stopped-ends zero (suc fuel) s lt stopped =
      let now : s.time + 0 ≡ s.time = omega arith in
      let clear : bit_and (value s.time s.writes) px_cmd_cr ≡ 0 = rw now at stopped in
      (s.time, rw clear, clear)
  wait_stopped-ends (suc k) (suc fuel) s lt stopped =
      elim (Bool-cases (bit_and (value s.time s.writes) px_cmd_cr == 0)) [
        | inl clear ↦ (s.time, rw clear, ground arith)
        | inr running ↦
            let next : s.time + suc k ≡ s.time + 1 + k = omega arith in
            let (t, run, clear) =
              wait_stopped-ends k fuel (record s { time = s.time + 1 }) (omega arith)
                (rw next at stopped) in
            (t, rw running run, clear)
      ]

  clear_st : (v : ℕ) → bit 0 (bit_and v (not32 px_cmd_st)) ≡ 0
  unfolding bit
  clear_st v = omega (arith, bit-bit_and 0 v (not32 px_cmd_st))

  -- Clearing ST and waiting ends, and the last value that was read has CR clear.
  stopped :
      (fuel : ℕ) (s : Port)
      → Stops fuel
      → (t : ℕ) × (w : ℕ) × (bit 0 w ≡ 0)
        × (wait_stopped fuel (update (λ v. bit_and v (not32 px_cmd_st)) s)
            ≡ ok (record { time = t + 1; writes = w ∷ s.writes }))
        × (bit_and (value t (w ∷ s.writes)) px_cmd_cr ≡ 0)
  stopped fuel s stops =
      let w = bit_and (value s.time s.writes) (not32 px_cmd_st) in
      let (k, lt, clear) = stops (s.time + 1) w s.writes (clear_st (value s.time s.writes)) in
      let (t, run, read) =
        wait_stopped-ends k fuel (update (λ v. bit_and v (not32 px_cmd_st)) s) lt clear in
      (t, w, clear_st (value s.time s.writes), run, read)

  -- The values written from s to s': one with ST clear, and one with ST and FRE clear. The last read but one,
  -- at `t`, is the one that ends the wait between them, and finds CR clear; the last read is part of the second update.
  abbrev pub Stopped : Port → Port → Type 0
  Stopped s s' =
      (t : ℕ) × (w : ℕ) × (u : ℕ) × (s'.writes ≡ u ∷ w ∷ s.writes)
      × (s'.time ≡ t + 2)
      × (bit 0 w ≡ 0)
      × (bit_and (value t (w ∷ s.writes)) px_cmd_cr ≡ 0)
      × (bit 0 u ≡ 0)
      × (bit 4 u ≡ 0)

  -- The values written from s to s': one with ST clear, one with FRE set and ST clear, and one with both set. The
  -- read at `t`, with two more behind it for the two last updates, ends the wait before these, and finds CR clear.
  abbrev pub Started : Port → Port → Type 0
  Started s s' =
      (t : ℕ) × (w : ℕ) × (u : ℕ) × (v : ℕ) × (s'.writes ≡ v ∷ u ∷ w ∷ s.writes)
      × (s'.time ≡ t + 3)
      × (bit 0 w ≡ 0)
      × (bit_and (value t (w ∷ s.writes)) px_cmd_cr ≡ 0)
      × (bit 0 u ≡ 0)
      × (bit 4 u ≡ 1)
      × (bit 0 v ≡ 1)
      × (bit 4 v ≡ 1)

  stop_cmd-Stopped :
      (fuel : ℕ) (s : Port)
      → Stops fuel
      → Keeps
      → (s' : Port) × (stop_cmd fuel s ≡ ok s') × Stopped s s'
  unfolding stop_cmd bit
  stop_cmd-Stopped fuel s stops keeps =
      let (t, w, low, run, clear) = stopped fuel s stops in
      let v = value (t + 1) (w ∷ s.writes) in
      let (st, fre) = keeps (t + 1) w s.writes in
      (
        record { time = t + 1 + 1; writes = bit_and v (not32 px_cmd_fre) ∷ w ∷ s.writes },
        >>=-eq-ok (λ s. ok (update (λ v. bit_and v (not32 px_cmd_fre)) s)) run refl,
        (
          t,
          w,
          bit_and v (not32 px_cmd_fre),
          refl,
          omega arith,
          low,
          clear,
          omega (arith, bit-bit_and 0 v (not32 px_cmd_fre), st, low),
          omega (arith, bit-bit_and 4 v (not32 px_cmd_fre)),
        ),
      )

  start_cmd-Started :
      (fuel : ℕ) (s : Port)
      → Stops fuel
      → Keeps
      → (s' : Port) × (start_cmd fuel s ≡ ok s') × Started s s'
  unfolding start_cmd bit
  start_cmd-Started fuel s stops keeps =
      let (t, w, low, run, clear) = stopped fuel s stops in
      let v = value (t + 1) (w ∷ s.writes) in
      let u = bit_or v px_cmd_fre in
      let v' = value (t + 1 + 1) (u ∷ w ∷ s.writes) in
      let (st, fre) = keeps (t + 1) w s.writes in
      let (st', fre') = keeps (t + 1 + 1) u (w ∷ s.writes) in
      let or_fre : bit 4 u ≡ 1 = omega (arith, bit-bit_or 4 v px_cmd_fre, bit-le-one 4 v) in
      (
        update (λ v. bit_or v px_cmd_st)
            (update (λ v. bit_or v px_cmd_fre) (record { time = t + 1; writes = w ∷ s.writes })),
        >>=-eq-ok (λ s. ok (update (λ v. bit_or v px_cmd_st) (update (λ v. bit_or v px_cmd_fre) s)))
            run refl,
        (
          t,
          w,
          u,
          bit_or v' px_cmd_st,
          refl,
          omega arith,
          low,
          clear,
          omega (arith, bit-bit_or 0 v px_cmd_fre, st, low),
          or_fre,
          omega (arith, bit-bit_or 0 v' px_cmd_st, bit-le-one 0 v'),
          omega (arith, bit-bit_or 4 v' px_cmd_st, fre', or_fre),
        ),
      )

  -- If the engine stops within `fuel` reads after 0 was written to ST, and ST and FRE read as they were
  -- written last, `stopCMD` and `startCMD` behind it end. ST is set only in the last write: FRE is set
  -- before it, and the last read before these two updates has CR clear. So has the last read before
  -- the update in which `stopCMD` clears FRE; it does not wait for FR.
  pub start_cmd-stop_cmd :
      (fuel : ℕ) (s : Port)
      → Stops fuel
      → Keeps
      → (s₁ : Port) × (s₂ : Port) × (stop_cmd fuel s ≡ ok s₁)
        × (start_cmd fuel s₁ ≡ ok s₂)
        × Stopped s s₁
        × Started s₁ s₂
  start_cmd-stop_cmd fuel s stops keeps =
      let (s₁, stop, halted) = stop_cmd-Stopped fuel s stops keeps in
      let (s₂, start, going) = start_cmd-Started fuel s₁ stops keeps in
      (s₁, s₂, stop, start, halted, going)
