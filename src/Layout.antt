-- ===== src/Layout.antt =====
-- Packed structures, as the headers of Kernel/include declare them for hardware and files.
--
-- Memory is its bits, from the lowest of the byte at address 0 on. A member that is no bit-field starts
-- at the next whole byte; bit-fields follow one another without a gap.
pub mod Fields
pub mod Ahci
pub mod Descriptors
pub mod Disk
pub mod Boot
mod Tests
use literate_os.Common.{
  ℕ, zero, suc, ◌+◌, ◌-◌, ◌*◌, ◌/◌, ◌%◌, ◌<◌, Option, none, some, List, [], ◌∷◌, ◌&&◌, leb, ltb,
  if◌then◌else◌, get_elem?,
}
use literate_os.Common.Bits.{bit}
use Prim.Native.String.{String}

-- `count` elements of `size` bytes each, or a bit-field.
pub data Member : Type 0 where
  field : (name : String) (size count : ℕ) → Member
  bits : (name : String) (width : ℕ) → Member

abbrev pub Layout : Type 0
Layout = List Member

-- The bits of a member, counted from the start of the structure.
pub record Span : Type 0 where
  pub start : ℕ
  pub width : ℕ

abbrev pub span : (at : ℕ) → Member → Span
span at (field name size count) = record { start = (at + 7) / 8 * 8; width = size * count * 8 }
span at (bits name width) = record { start = at; width = width }

abbrev pub spans : (at : ℕ) → Layout → List Span
spans at [] = []
spans at (m ∷ ms) = span at m ∷ spans ((span at m).start + (span at m).width) ms

abbrev pub end_of : (at : ℕ) → Layout → ℕ
end_of at [] = at
end_of at (m ∷ ms) = end_of ((span at m).start + (span at m).width) ms

-- `sizeof`, in bytes.
abbrev pub size_of : Layout → ℕ
size_of l = (end_of 0 l + 7) / 8

-- Where the member at a position starts, in bytes.
abbrev pub offset_of : Layout → ℕ → Option ℕ
offset_of l p = elim (get_elem? (spans 0 l) p) [ none ↦ none | some s ↦ some (s.start / 8) ]

abbrev pub Memory : Type 0
Memory = ℕ → ℕ

pub load_bits : (width start : ℕ) → Memory → ℕ
load_bits zero start mem = 0
load_bits (suc width) start mem = mem start % 2 + 2 * load_bits width (start + 1) mem

pub store_bits : (width start value : ℕ) → Memory → Memory
store_bits width start value mem k =
    if leb start k && ltb k (start + width) then bit (k - start) value else mem k

-- A member of the structure at the byte `base`.
pub load_member : (base : ℕ) → Span → Memory → ℕ
unfolding load_bits
load_member base s mem = load_bits s.width (8 * base + s.start) mem

pub store_member : (base : ℕ) → Span → (value : ℕ) → Memory → Memory
unfolding store_bits
store_member base s value mem = store_bits s.width (8 * base + s.start) value mem
