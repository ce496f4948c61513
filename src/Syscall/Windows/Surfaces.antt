-- ===== src/Syscall/Windows/Surfaces.antt =====
-- `SysCopyWindowSurface`: the rows of a window's surface that fit into another one.
--
-- The structures at `edx` and `esi` are read from `vectors` and `rects`. An `int` is a word, from 2^31 on
-- negative.
pub mod Rows
use literate_os.Common.{
  ℕ, zero, suc, ◌+◌, ◌*◌, ◌^◌, Bool, true, false, ◌==◌, ltb, ◌&&◌, ◌||◌, if◌then◌else◌,
}
use literate_os.Common.Bits.{u32, add32, sub32}
use literate_os.Common.Run.{Run, ok, out_of_fuel, ◌>>=◌, or_fault}
use literate_os.Machine.Copy.{memcpy_optimized}
use literate_os.Syscall.{Regs}
use literate_os.Syscall.Windows.{Gui, Surface, Window, is_registered}

pub record Vector2i : Type 0 where
  pub x : ℕ
  pub y : ℕ

pub record Rect : Type 0 where
  pub pos : Vector2i
  pub size : Vector2i

abbrev pub int_less : ℕ → ℕ → Bool
int_less a b = ltb (u32 (a + 2 ^ 31)) (u32 (b + 2 ^ 31))

-- The smaller of what the region and the destination have, as `rowSize`.
unfoldable pub row_size : (dest_width : ℕ) → (offset : Vector2i) → Rect → ℕ
row_size dest_width offset region =
    let room = sub32 dest_width offset.x in
    if int_less region.size.x room then region.size.x else room

-- The loop at row `i`; the sizes of the region bound the rows, not its position.
pub copy_rows :
    (fuel i : ℕ) (dest : Surface) (w : Window) (offset : Vector2i) (region : Rect)
    → (ℕ → ℕ)
    → Run (ℕ → ℕ)
unfolding row_size
copy_rows zero i dest w offset region bytes = out_of_fuel
copy_rows (suc fuel) i dest w offset region bytes =
    let to = u32 (dest.buffer + (i + offset.y) * (dest.width * 4) + offset.x * 4) in
    let from = u32 (w.buffer + i * (w.info.width * 4) + region.pos.x * 4) in
    let copied = (do
      bytes ← memcpy_optimized to from (u32 (row_size dest.width offset region * 4)) bytes
      copy_rows fuel (add32 i 1) dest w offset region bytes) in
    if int_less i region.size.y && int_less i (sub32 dest.height offset.y) then copied else ok bytes

abbrev pub origin : Vector2i
origin = record { x = 0; y = 0 }

abbrev pub offset_of : (ℕ → Vector2i) → Regs → Vector2i
offset_of vectors r = if r.edx == 0 then origin else vectors r.edx

-- The region at `esi` is taken if `edx` is set.
abbrev pub region_of : (ℕ → Rect) → Regs → Window → Rect
region_of rects r w =
    if r.edx == 0
    then record { pos = origin; size = record { x = w.info.width; y = w.info.height } }
    else rects r.esi

pub sys_copy_window_surface :
    (fuel : ℕ) (vectors : ℕ → Vector2i) (rects : ℕ → Rect) → Regs → Gui → Run (ℕ × Gui)
unfolding copy_rows
sys_copy_window_surface fuel vectors rects r g =
    let shown = (do
      w ← or_fault (g.window_at r.ecx)
      let region = region_of rects r w
      bytes ← copy_rows fuel region.pos.y (g.surfaces r.ebx) w (offset_of vectors r) region g.bytes
      ok (0, record g { bytes = bytes })) in
    if r.ebx == 0 || r.ecx == 0
    then ok (1, g)
    else if is_registered r.ecx g
    then shown
    else ok (2, g)
