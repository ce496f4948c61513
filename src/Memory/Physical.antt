-- ===== src/Memory/Physical.antt =====
-- The physical block allocator: Kernel/src/arch/x86/pyhsicalallocator.cpp.
--
-- A block is 4096 bytes, and bit `b % 32` of word `b / 32` of the bitmap is 1 while block `b` is
-- taken. `none` is an access outside the array `physicalMemoryBitmap`.
pub mod Bitmap
pub mod Search
pub mod Alloc
pub mod Init
mod Tests
use mathlib.Core.Option
use literate_os.Common.{
  ℕ, zero, suc, ◌+◌, ◌-◌, ◌*◌, ◌/◌, ◌%◌, ◌^◌, bit_and, bit_or, Bool, Option, none, some, ◌≡◌, List,
  [], ◌∷◌, ◌==◌, ltb, if◌then◌else◌, get_elem?, set, replicate,
}
use literate_os.Common.Bits.{not32, u32, add32, sub32, bit}

abbrev pub block_size : ℕ
block_size = 4096

abbrev pub bitmap_dwords : ℕ
bitmap_dwords = 32768

abbrev pub full_word : ℕ
full_word = 0xffffffff

pub record Physical : Type 0 where
  pub bitmap : List ℕ
  pub used : ℕ
  pub max_blocks : ℕ

infixl 5 ◌>>=◌
abbrev pub ◌>>=◌ {ℓ κ} : {A : Type ℓ} {B : Type κ} → Option A → (A → Option B) → Option B
none >>= k = none
some a >>= k = k a

pub >>=-eq-some {ℓ κ} :
    {A : Type ℓ} {B : Type κ} {m : Option A} (f : A → Option B) {a : A} {b : B}
    → m ≡ some a
    → f a ≡ some b
    → (m >>= f) ≡ some b
>>=-eq-some f e run = rw e run

unfoldable pub bit_set : List ℕ → ℕ → Option (List ℕ)
bit_set m b = do w ← get_elem? m (b / 32); some (set m (b / 32) (bit_or w (2 ^ (b % 32))))

pub bit_clear : List ℕ → ℕ → Option (List ℕ)
bit_clear m b = do
  w ← get_elem? m (b / 32)
  some (set m (b / 32) (bit_and w (not32 (2 ^ (b % 32)))))

-- The inner loop of `GetFirstFreeMemoryBlock` at bit `j`, with `left` rounds to go.
unfoldable pub free_bit : ℕ → ℕ → ℕ → Option ℕ
free_bit w zero j = none
free_bit w (suc left) j =
    let rest = free_bit w left (j + 1) in if bit_and w (2 ^ j) == 0 then some j else rest

-- The outer loop at word `i`; the list is the rest of the bitmap. 0 is the return behind the loops.
unfoldable pub first_free_from : List ℕ → ℕ → ℕ
unfolding free_bit
first_free_from [] i = 0
first_free_from (w ∷ ws) i =
    let rest = first_free_from ws (i + 1) in
    if w == full_word then rest else elim (free_bit w 32 0) [ none ↦ rest | some j ↦ i * 32 + j ]

unfoldable pub get_first_free_memory_block : List ℕ → ℕ
unfolding first_free_from
get_first_free_memory_block m = first_free_from m 0

-- The `for` loop of `MarkMemoryRegionUsed`, with `blocks` rounds to go.
pub mark_blocks : ℕ → ℕ → Physical → Option Physical
unfolding bit_clear
mark_blocks zero align s = some s
mark_blocks (suc blocks) align s = do
  m ← bit_clear s.bitmap align
  mark_blocks blocks (add32 align 1) (record s { bitmap = m; used = add32 s.used 1 })

pub mark_memory_region_used : ℕ → ℕ → Physical → Option Physical
unfolding mark_blocks
mark_memory_region_used base size s = mark_blocks (size / block_size + 1) (base / block_size) s

-- The address of the block, 0 if the index is 0.
unfoldable pub allocate_physical_memory_block : Physical → Option (ℕ × Physical)
unfolding get_first_free_memory_block bit_set
allocate_physical_memory_block s =
    let index = get_first_free_memory_block s.bitmap in
    if index == 0 then some (0, s) else (do
      m ← bit_set s.bitmap index
      some (u32 (index * block_size), record s { bitmap = m; used = add32 s.used 1 }))

pub free_physical_memory_block : ℕ → Physical → Option Physical
unfolding bit_clear
free_physical_memory_block addr s = do
  m ← bit_clear s.bitmap (addr / block_size)
  some (record s { bitmap = m; used = sub32 s.used 1 })

-- `memset(physicalMemoryBitmap, 0xFFFFFFFF, n * 4)`.
pub all_ones : ℕ → List ℕ
all_ones n = replicate n full_word

-- `multiboot_memory_map_t`.
pub record MemoryMap : Type 0 where
  pub size : ℕ
  pub base : ℕ
  pub length : ℕ
  pub kind : ℕ

-- `memory_info_t`; `mem_map` is an address.
pub record MemoryInfo : Type 0 where
  pub memory_low : ℕ
  pub memory_high : ℕ
  pub mem_map : ℕ
  pub memory_map_len : ℕ

abbrev pub sizeof_memory_map : ℕ
sizeof_memory_map = 24

-- What the source calls and does not define: `MarkMemoryRegionFree`; and the memory that the boot
-- loader filled, read as an entry of its memory map, `none` where no page is present.
module _ (mark_memory_region_free : ℕ → ℕ → Physical → Option Physical)
    (entry_at : ℕ → Option MemoryMap) where
  -- The `while` loop of `InitializePhysicalAllocator`, on fuel; `none` also if the fuel runs out.
  pub scan_memory_map : ℕ → ℕ → ℕ → Physical → Option Physical
  scan_memory_map zero at end s = none
  scan_memory_map (suc fuel) at end s =
      let round = entry_at at >>= λ e.
      (if e.kind == 1 then mark_memory_region_free (u32 e.base) (u32 e.length) s else some s)
      >>= λ s'. scan_memory_map fuel (add32 (add32 at e.size) 4) end s' in
      if ltb at end then round else some s

  -- The end is `mem_map + memory_map_len` on a pointer to entries, so the length counts entries.
  pub initialize_physical_allocator : ℕ → MemoryInfo → Physical → Option Physical
  unfolding scan_memory_map mark_memory_region_used all_ones
  initialize_physical_allocator fuel info s = do
    s' ←
        scan_memory_map fuel info.mem_map
          (u32 (info.mem_map + info.memory_map_len * sizeof_memory_map))
          (record s { bitmap = all_ones bitmap_dwords })
    mark_memory_region_used 0 (6144 * 4096)
        (record s' { max_blocks = u32 (info.memory_high * 1024) / block_size })
