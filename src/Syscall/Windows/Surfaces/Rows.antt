-- ===== src/Syscall/Windows/Surfaces/Rows.antt =====
-- Which bytes the rows of a copied surface reach.
use native.Mathlib.Nat.{mul-le-mul_right, add-mul}
use literate_os.Common.{
  ℕ, zero, suc, ◌+◌, ◌-◌, ◌*◌, ◌^◌, ◌<◌, ◌≤◌, ◌≡◌, refl, subst, ◌∙◌, ◌⊎◌, inl, inr, true, false,
  ◌==◌, leb, ltb, ◌&&◌, ◌||◌, ◌≢◌, some, arith, Bool-cases,
}
use literate_os.Common.Bits.{u32, add32, sub32}
use literate_os.Common.Run.{ok}
use literate_os.Machine.Copy.{copied, memcpy_optimized}
use literate_os.Machine.Copy.Laws.{memcpy_optimized-copied}
use literate_os.Syscall.{Regs}
use literate_os.Syscall.Windows.{Surface, Window, Gui, is_registered}
use literate_os.Syscall.Windows.Surfaces.{
  Vector2i, Rect, int_less, row_size, copy_rows, offset_of, region_of, sys_copy_window_surface,
}

int_less-ltb : (a b : ℕ) → a < 2 ^ 31 → b < 2 ^ 31 → int_less a b ≡ ltb a b
int_less-ltb a b small small' = ground arith

module _ (dest : Surface) (w : Window) (offset : Vector2i) (region : Rect) where
  abbrev pub row : ℕ
  row = row_size dest.width offset region * 4

  -- The addresses of row `i`, and the first address behind the two buffers.
  abbrev pub row_to : ℕ → ℕ
  row_to i = dest.buffer + (i + offset.y) * (dest.width * 4) + offset.x * 4

  abbrev pub row_from : ℕ → ℕ
  row_from i = w.buffer + i * (w.info.width * 4) + region.pos.x * 4

  abbrev pub dest_end : ℕ
  dest_end = dest.buffer + dest.height * (dest.width * 4)

  abbrev pub from_end : ℕ
  from_end = w.buffer + region.size.y * (w.info.width * 4)

  -- A row is at least one block and lies in a row of each buffer; the buffers do not overlap.
  pub record Fits : Type 0 where
    pub row_large : 16 ≤ row
    pub row_in_dest : offset.x * 4 + row ≤ dest.width * 4
    pub row_in_window : region.pos.x * 4 + row ≤ w.info.width * 4
    pub below : offset.y ≤ dest.height
    pub height_small : dest.height < 2 ^ 31
    pub size_small : region.size.y < 2 ^ 31
    pub dest_small : dest_end < 2 ^ 32
    pub from_small : from_end < 2 ^ 32
    pub apart : (dest_end ≤ w.buffer) ⊎ (from_end ≤ dest.buffer)

  -- A row stays inside its buffer.
  row_to-inside : (f : Fits) (i : ℕ) → i + offset.y < dest.height → row_to i + row ≤ dest_end
  row_to-inside f i inside =
      let lines =
        mul-le-mul_right {m = i + offset.y + 1} {n = dest.height} (dest.width * 4) (omega arith) in
      let next = add-mul (i + offset.y) 1 (dest.width * 4) in
      omega (arith, lines, next, f.row_in_dest)

  row_from-inside : (f : Fits) (i : ℕ) → i < region.size.y → row_from i + row ≤ from_end
  row_from-inside f i inside =
      let lines =
        mul-le-mul_right {m = i + 1} {n = region.size.y} (w.info.width * 4) (omega arith) in
      let next = add-mul i 1 (w.info.width * 4) in omega (arith, lines, next, f.row_in_window)

  -- Rows below row `i` start behind its end.
  row_to-lt : (f : Fits) (i k : ℕ) → i < k → row_to i + row ≤ row_to k
  row_to-lt f i k lt =
      let lines =
        mul-le-mul_right {m = i + offset.y + 1} {n = k + offset.y} (dest.width * 4) (omega arith) in
      let next = add-mul (i + offset.y) 1 (dest.width * 4) in
      omega (arith, lines, next, f.row_in_dest)

  -- One row is copied as `memcpy` does.
  row-copied :
      (f : Fits) (i : ℕ) (bytes : ℕ → ℕ)
      → i < region.size.y
      → i + offset.y < dest.height
      → memcpy_optimized (u32 (row_to i)) (u32 (row_from i)) (u32 row) bytes
        ≡ ok (copied bytes (row_to i) (row_from i) row)
  row-copied f i bytes inside inside' =
      let to_end = row_to-inside f i inside' in
      let of_end = row_from-inside f i inside in
      let to : u32 (row_to i) ≡ row_to i = omega (arith, to_end, f.dest_small) in
      let of : u32 (row_from i) ≡ row_from i = omega (arith, of_end, f.from_small) in
      let size : u32 row ≡ row = omega (arith, to_end, f.dest_small) in
      let apart : (row_to i + row ≤ row_from i) ⊎ (row_from i + row ≤ row_to i) = elim f.apart [
        | inl ahead ↦ inl (omega (arith, to_end))
        | inr behind ↦ inr (omega (arith, of_end))
      ] in
      rw (to, of, size)
        (memcpy_optimized-copied (row_to i) (row_from i) row bytes f.row_large
          (omega (arith, to_end, f.dest_small)) (omega (arith, of_end, f.from_small)) apart)

  -- A row that is copied, and its bytes.
  abbrev pub IsCopied : ℕ → Type 0
  IsCopied k = (k < region.size.y) × (k + offset.y < dest.height)

  -- What the rows from `i` on do: each byte of a row is the window's, and no other byte is changed.
  pub record Copied (i : ℕ) (bytes bytes' : ℕ → ℕ) : Type 0 where
    pub rows :
        (k j : ℕ) → i ≤ k → IsCopied k → j < row → bytes' (row_to k + j) ≡ bytes (row_from k + j)
    pub others :
        (a : ℕ)
        → ((k : ℕ) → i ≤ k → IsCopied k → (a < row_to k) ⊎ (row_to k + row ≤ a))
        → bytes' a ≡ bytes a

  Copied-stop : (i : ℕ) (bytes : ℕ → ℕ) → ((k : ℕ) → i ≤ k → IsCopied k → ⊥) → Copied i bytes bytes
  Copied-stop i bytes stop = record {
    rows = λ k j low on small. absurd (stop k low on);
    others = λ a out. refl;
  }

  module _ (f : Fits) (i : ℕ) (bytes bytes' : ℕ → ℕ) (on : IsCopied i)
      (rest : Copied (i + 1) (copied bytes (row_to i) (row_from i) row) bytes') where
    -- The rows behind leave this one alone.
    this_row : (j : ℕ) → j < row → bytes' (row_to i + j) ≡ bytes (row_from i + j)
    this_row j small =
        let within : (leb (row_to i) (row_to i + j) && ltb (row_to i + j) (row_to i + row)) ≡ true =
          ground arith in
        let same : row_from i + (row_to i + j - row_to i) ≡ row_from i + j = omega arith in
        rest.others (row_to i + j)
          (λ k low k_on. inl (omega (arith, row_to-lt f i k (omega arith), small)))
        ∙ rw (within, same)

    -- The window is not written.
    next_row :
        (k j : ℕ) → i < k → IsCopied k → j < row → bytes' (row_to k + j) ≡ bytes (row_from k + j)
    next_row k j low k_on small =
        let to_end = row_to-inside f i on.1 in
        let of_end = row_from-inside f k k_on.0 in
        let untouched : (leb (row_to i) (row_from k + j) && ltb (row_from k + j) (row_to i + row))
            ≡ false =
          elim f.apart [
            | inl ahead ↦
                let far : row_to i + row ≤ row_from k + j = omega (arith, to_end) in
                ground (arith, far)
            | inr behind ↦
                let near : row_from k + j < row_to i = omega (arith, of_end) in ground (arith, near)
          ] in
        rest.rows k j (omega arith) k_on small ∙ rw untouched

    Copied-row : Copied i bytes bytes'
    Copied-row = record {
      rows = λ k j low k_on small. elim (Bool-cases (k == i)) [
        | inl first ↦
            let is : i ≡ k = ground arith in
            subst (λ (n : ℕ). bytes' (row_to n + j) ≡ bytes (row_from n + j)) is (this_row j small)
        | inr later ↦ next_row k j (ground arith) k_on small
      ];
      others = λ a out.
          let here = out i (omega arith) on in
          let untouched : (leb (row_to i) a && ltb a (row_to i + row)) ≡ false = elim here [
            | inl low ↦ ground arith
            | inr high ↦ ground arith
          ] in
          rest.others a (λ k low k_on. out k (omega arith) k_on) ∙ rw untouched;
    }

  loop_test :
      (f : Fits) (i : ℕ)
      → i < 2 ^ 31
      → (int_less i region.size.y && int_less i (sub32 dest.height offset.y))
        ≡ (ltb i region.size.y && ltb i (dest.height - offset.y))
  loop_test f i small =
      let room : sub32 dest.height offset.y ≡ dest.height - offset.y =
        omega (arith, f.below, f.height_small) in
      let by_size : int_less i region.size.y ≡ ltb i region.size.y =
        int_less-ltb i region.size.y small f.size_small in
      let by_room = int_less-ltb i (dest.height - offset.y) small (omega (arith, f.height_small)) in
      rw (room, by_size, by_room)

  copy_rows-Copied :
      (f : Fits) (fuel i : ℕ) (bytes : ℕ → ℕ)
      → i < 2 ^ 31
      → region.size.y - i < fuel
      → (bytes' : ℕ → ℕ) × (copy_rows fuel i dest w offset region bytes ≡ ok bytes')
        × Copied i bytes bytes'
  unfolding copy_rows
  copy_rows-Copied f zero i bytes small enough = absurd (omega arith)
  copy_rows-Copied f (suc fuel) i bytes small enough =
      elim (Bool-cases (ltb i region.size.y && ltb i (dest.height - offset.y))) [
        | inl more ↦
            let test : (int_less i region.size.y && int_less i (sub32 dest.height offset.y))
                ≡ true =
              loop_test f i small ∙ more in
            let on : IsCopied i = (ground arith, ground arith) in
            let next : add32 i 1 ≡ i + 1 = omega arith in
            let step : copy_rows (suc fuel) i dest w offset region bytes
                ≡ copy_rows fuel (i + 1) dest w offset region
                    (copied bytes (row_to i) (row_from i) row) =
              rw (test, row-copied f i bytes on.0 on.1, next) in
            let (bytes', run, rest) =
              copy_rows-Copied f fuel (i + 1) (copied bytes (row_to i) (row_from i) row)
                (omega (arith, on.0, f.size_small)) (omega (arith, on.0)) in
            (bytes', step ∙ run, Copied-row f i bytes bytes' on rest)
        | inr over ↦
            let test : (int_less i region.size.y && int_less i (sub32 dest.height offset.y))
                ≡ false =
              loop_test f i small ∙ over in
            (bytes, rw test, Copied-stop i bytes λ k low on. ground arith)
      ]

-- `SysCopyWindowSurface` of a registered window, whose rows lie in both buffers (`Fits`), returns 0 after at most
-- one round for each row from the region's pos.y up to, and without, its size.y, which the loop takes for
-- the bottom row: every byte of such a row that fits below the offset is the window's, and no other byte of
-- memory is changed. Rows from size.y on are not copied, so with a pos.y above 0 part of the region is not.
pub sys_copy_window_surface-Copied :
    (fuel : ℕ) (vectors : ℕ → Vector2i) (rects : ℕ → Rect) (r : Regs) (g : Gui) (w : Window)
    → r.ebx ≢ 0
    → r.ecx ≢ 0
    → is_registered r.ecx g ≡ true
    → g.window_at r.ecx ≡ some w
    → Fits (g.surfaces r.ebx) w (offset_of vectors r) (region_of rects r w)
    → (region_of rects r w).pos.y < 2 ^ 31
    → (region_of rects r w).size.y - (region_of rects r w).pos.y < fuel
    → (bytes : ℕ → ℕ) × (sys_copy_window_surface fuel vectors rects r g
        ≡ ok (0, record g { bytes = bytes }))
      × Copied
          (g.surfaces r.ebx)
          w
          (offset_of vectors r)
          (region_of rects r w)
          (region_of rects r w).pos.y
          g.bytes
          bytes
unfolding sys_copy_window_surface
sys_copy_window_surface-Copied fuel vectors rects r g w nb nc registered there f small enough =
    let valid : (r.ebx == 0 || r.ecx == 0) ≡ false = ground arith in
    let region = region_of rects r w in
    let (bytes, run, done) =
      copy_rows-Copied (g.surfaces r.ebx) w (offset_of vectors r) region f fuel region.pos.y g.bytes
        small enough in
    (bytes, rw (valid, registered, there, run), done)
