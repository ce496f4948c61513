-- ===== src/Devices/Vga.antt =====
-- The text screen: Kernel/src/arch/x86/vga.cpp.
--
-- The screen memory is read by the offset from `video_memory`; a cell is a character and its colour.
-- The position is kept on 16 bits and nothing scrolls or wraps.
use literate_os.Common.{
  ℕ, zero, suc, ◌+◌, ◌*◌, ◌%◌, ◌≤◌, ◌≡◌, refl, ◌∙◌, false, List, [], ◌∷◌, ◌==◌, ltb, leb, ◌&&◌,
  if◌then◌else◌, arith,
}
use literate_os.Common.Bits.{u16}

abbrev pub screen_width : ℕ
screen_width = 80

abbrev pub screen_height : ℕ
screen_height = 25

abbrev pub screen_depth : ℕ
screen_depth = 2

pub record Screen : Type 0 where
  pub memory : ℕ → ℕ
  pub cur_x : ℕ
  pub cur_y : ℕ

-- `'\n'` is 10.
pub putc : (c colour : ℕ) → Screen → Screen
putc c colour s =
    let cell = (screen_width * s.cur_y + s.cur_x) * screen_depth in
    if c == 10 then record s { cur_x = 0; cur_y = u16 (s.cur_y + 1) } else record s {
      memory = λ a. if a == cell then c else if a == cell + 1 then colour else s.memory a;
      cur_x = u16 (s.cur_x + 1);
    }

-- The string without the 0 that ends it.
unfoldable pub puts : List ℕ → (colour : ℕ) → Screen → Screen
unfolding putc
puts [] colour s = s
puts (c ∷ cs) colour s = puts cs colour (putc c colour s)

pub put_blanks : (n colour : ℕ) → Screen → Screen
unfolding putc
put_blanks zero colour s = s
put_blanks (suc n) colour s = put_blanks n colour (putc 32 colour s)

pub clearscreen : (colour : ℕ) → Screen → Screen
unfolding put_blanks
clearscreen colour s =
    let s' = put_blanks (screen_width * screen_height) colour (record s { cur_x = 0; cur_y = 0 }) in
    record s' { cur_x = 0; cur_y = 0 }

-- A cell of the screen by its number.
abbrev pub blank_at : (colour : ℕ) → ℕ → ℕ
blank_at colour a = if a % 2 == 0 then 32 else colour

put_blanks_lem :
    (n colour a : ℕ) (s : Screen)
    → s.cur_y ≡ 0
    → s.cur_x + n ≤ 2000
    → (put_blanks n colour s).memory a
      ≡ (if leb (2 * s.cur_x) a && ltb a (2 * (s.cur_x + n)) then blank_at colour a else s.memory a)
unfolding put_blanks putc
put_blanks_lem zero colour a s top fits =
    let none_in : (leb (2 * s.cur_x) a && ltb a (2 * (s.cur_x + 0))) ≡ false = ground arith in
    rw none_in refl
put_blanks_lem (suc n) colour a s top fits =
    let next = putc 32 colour s in
    let there : u16 (s.cur_x + 1) ≡ s.cur_x + 1 = omega arith in
    put_blanks_lem n colour a next top (omega (arith, there)) ∙ ground (arith, there)

-- `clearscreen` makes every cell of the 25 lines blank in the colour, touches no byte behind them, and
-- leaves the position at the start.
pub clearscreen_lem :
    (colour a : ℕ) (s : Screen)
    → ((clearscreen colour s).memory a ≡ (if ltb a 4000 then blank_at colour a else s.memory a))
      × ((clearscreen colour s).cur_x ≡ 0)
      × ((clearscreen colour s).cur_y ≡ 0)
unfolding clearscreen
clearscreen_lem colour a s =
    let home : Screen = record s { cur_x = 0; cur_y = 0 } in
    (put_blanks_lem 2000 colour a home refl (omega arith) ∙ ground arith, refl, refl)
