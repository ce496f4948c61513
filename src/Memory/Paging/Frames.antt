-- ===== src/Memory/Paging/Frames.antt =====
-- The bits of an entry, and the indices of an address.
use literate_os.Common.{
  ◌+◌, ℕ, ◌*◌, ◌/◌, ◌%◌, ◌^◌, ◌<◌, bit_and, ◌≡◌, refl, ap, ◌∙◌, true, ◌==◌, ltb, leb, ◌&&◌,
  if◌then◌else◌, arith, holds_below, holds_below-test, ==_iff,
}
use literate_os.Common.Bits.{
  not32, bit, bit-le-one, bit-bit_and, bit-bit_or, bit_ext, bit-zero, bit_and-le_right,
}
use literate_os.Common.Bits.Fields.{bit-low, bit_of_lt, bit-mod-pow, bit_and_mask}
use literate_os.Memory.Paging.{page_frame, page_directory_index, page_table_index, set_page_frame}

page_directory_index-mod : (x : ℕ) → page_directory_index x ≡ x / 4 % 1024
unfolding page_directory_index
page_directory_index-mod x = bit_and_mask 10 (x / 4)

pub page_table_index-mod : (x : ℕ) → page_table_index x ≡ x / 4096 % 1024
unfolding page_table_index
page_table_index-mod x = bit_and_mask 10 (x / 4096)

-- `PAGE_DIRECTORY_INDEX` shifts by 2: of every page-aligned address it is 0.
pub page_directory_index-aligned : (x : ℕ) → x % 4096 ≡ 0 → page_directory_index x ≡ 0
page_directory_index-aligned x aligned = omega (arith, page_directory_index-mod x)

frame_table :
    holds_below (λ j. bit j page_frame == (if leb 12 j && ltb j 31 then 1 else 0)) 32 ≡ true
unfolding holds_below bit
frame_table = refl

rest_table :
    holds_below (λ j. bit j (not32 page_frame) == (if leb 12 j && ltb j 31 then 0 else 1)) 32 ≡ true
unfolding holds_below bit
rest_table = refl

frame_bit : (j : ℕ) → j < 32 → bit j page_frame ≡ (if leb 12 j && ltb j 31 then 1 else 0)
frame_bit j h = (==_iff _ _).0 (holds_below-test _ _ j h frame_table)

rest_bit : (j : ℕ) → j < 32 → bit j (not32 page_frame) ≡ (if leb 12 j && ltb j 31 then 0 else 1)
rest_bit j h = (==_iff _ _).0 (holds_below-test _ _ j h rest_table)

-- What is read back of a frame that was set: its address without bit 31, which `PAGE_FRAME` leaves out.
pub bit_and-set_page_frame :
    (p addr : ℕ)
    → addr < 2 ^ 32
    → addr % 4096 ≡ 0
    → bit_and (set_page_frame p addr) page_frame ≡ addr % 2 ^ 31
unfolding set_page_frame
bit_and-set_page_frame p addr small aligned =
    bit_ext 32 _ _ (omega (arith, bit_and-le_right (set_page_frame p addr) page_frame))
      (omega arith) same
  where
    blocks : addr ≡ addr / 4096 * 2 ^ 12 + 0
    blocks = omega arith

    low : (j : ℕ) → j < 12 → bit j addr ≡ 0
    low j h = ap (bit j) blocks ∙ bit-low 12 j (addr / 4096) 0 h ∙ bit-zero j

    same :
        (j : ℕ)
        → j < 32
        → bit j (bit_and (set_page_frame p addr) page_frame) ≡ bit j (addr % 2 ^ 31)
    same j h = ground (
      arith,
      bit-bit_and j (set_page_frame p addr) page_frame,
      bit-bit_or j (bit_and p (not32 page_frame)) addr,
      bit-bit_and j p (not32 page_frame),
      frame_bit j h,
      rest_bit j h,
      low j,
      bit-mod-pow 31 j addr,
      bit_of_lt 31 j (addr % 2 ^ 31),
      bit-le-one j p,
      bit-le-one j addr,
    )
