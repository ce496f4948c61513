-- ===== src/Devices/Pci.antt =====
-- The PCI bus: Kernel/src/arch/x86/pci.cpp and Kernel/include/arch/x86/pci.h.
--
-- `config` is what port 0xCFC gives after the address was written to port 0xCF8.
pub mod Registry
pub mod Scan
use literate_os.Common.{
  ℕ, ◌+◌, ◌*◌, ◌/◌, ◌^◌, ◌<◌, bit_and, bit_or, ◌≡◌, refl, ◌∙◌, Bool, true, false, ◌==◌,
  if◌then◌else◌, holds_below, holds_below-test, ==_iff, arith,
}
use literate_os.Common.Bits.{u8, u16, u32, ◌<<<◌, ◌>>>◌, bit-bit_or, bits_ext}
use literate_os.Common.Bits.Fields.{bit_or_fields}

abbrev pub enable : ℕ
enable = 0x80000000

-- The address of `Config_ReadByte`, and that of `Config_ReadWord`, which shifts `func` to the right.
pub byte_address : (bus slot func offset : ℕ) → ℕ
byte_address bus slot func offset = u32 (
    bit_or (bit_or (bit_or (bit_or (bus <<< 16) (slot <<< 11)) (func <<< 8)) (bit_and offset 0xfc))
      enable)

pub word_address : (bus slot func offset : ℕ) → ℕ
word_address bus slot func offset = u32 (
    bit_or (bit_or (bit_or (bit_or (bus <<< 16) (slot <<< 11)) (func >>> 8)) (bit_and offset 0xfc))
      enable)

module _ (config : ℕ → ℕ) where
  unfoldable pub config_read_word : (bus slot func offset : ℕ) → ℕ
  unfolding word_address
  config_read_word bus slot func offset =
      u16 (bit_and (config (word_address bus slot func offset) >>> (bit_and offset 2 * 8)) 0xffff)

  unfoldable pub config_read_byte : (bus slot func offset : ℕ) → ℕ
  unfolding byte_address
  config_read_byte bus slot func offset =
      u8 (bit_and (config (byte_address bus slot func offset) >>> (bit_and offset 3 * 8)) 0xff)

  unfoldable pub get_vendor : (bus slot : ℕ) → ℕ
  unfolding config_read_word
  get_vendor bus slot = config_read_word bus slot 0 0

  pub get_device_id : (bus slot : ℕ) → ℕ
  unfolding config_read_word
  get_device_id bus slot = config_read_word bus slot 0 0

  unfoldable pub check_device : (bus slot : ℕ) → Bool
  unfolding get_vendor
  check_device bus slot = if get_vendor bus slot == 0xFFFF then false else true

  -- `Config_ReadWord` reads function 0, whatever function it is asked for, so the words of one device
  -- are the same for all eight functions; and `GetDeviceID` reads the vendor.
  pub config_read_word-function :
      (bus slot func offset : ℕ)
      → func < 8
      → (config_read_word bus slot func offset ≡ config_read_word bus slot 0 offset)
        × (get_device_id bus slot ≡ get_vendor bus slot)
  unfolding config_read_word word_address get_device_id get_vendor
  config_read_word-function bus slot func offset small =
      let none_left : func / 2 ^ 8 ≡ 0 = omega arith in (rw none_left, refl)

aligned_table : holds_below (λ x. bit_and x 0xfc == x / 4 * 4) 256 ≡ true
unfolding holds_below
aligned_table = refl

bit_or_comm : (a b : ℕ) → bit_or a b ≡ bit_or b a
bit_or_comm a b = bits_ext _ _ λ j. omega (arith, bit-bit_or j a b, bit-bit_or j b a)

-- The address of a byte has each of the numbers in a field of its own, and the enable bit above them.
pub byte_address-fields :
    (bus slot func offset : ℕ)
    → bus < 256
    → slot < 32
    → func < 8
    → offset < 256
    → byte_address bus slot func offset
      ≡ enable + bus * 2 ^ 16 + slot * 2 ^ 11 + func * 2 ^ 8 + offset / 4 * 4
unfolding byte_address
byte_address-fields bus slot func offset b s f o =
    let low : bit_and offset 0xfc ≡ offset / 4 * 4 =
      (==_iff _ _).0 (holds_below-test _ _ offset o aligned_table) in
    let join_slot : bit_or (bus * 2 ^ 16) (slot * 2 ^ 11) ≡ (bus * 32 + slot) * 2 ^ 11 =
      bit_or_fields 16 bus (slot * 2 ^ 11) (omega arith) ∙ omega arith in
    let join_func : bit_or ((bus * 32 + slot) * 2 ^ 11) (func * 2 ^ 8)
        ≡ ((bus * 32 + slot) * 8 + func) * 2 ^ 8 =
      bit_or_fields 11 (bus * 32 + slot) (func * 2 ^ 8) (omega arith) ∙ omega arith in
    let join_offset : bit_or (((bus * 32 + slot) * 8 + func) * 2 ^ 8) (offset / 4 * 4)
        ≡ ((bus * 32 + slot) * 8 + func) * 2 ^ 8 + offset / 4 * 4 =
      bit_or_fields 8 ((bus * 32 + slot) * 8 + func) (offset / 4 * 4) (omega arith) in
    let all = ((bus * 32 + slot) * 8 + func) * 2 ^ 8 + offset / 4 * 4 in
    let join_enable : bit_or all enable ≡ enable + all =
      bit_or_comm all enable ∙ bit_or_fields 31 1 all (omega arith) in
    rw (low, join_slot, join_func, join_offset, join_enable) (omega arith)
