-- ===== src/Memory/Physical/Tests.antt =====
-- Runs of the allocator, and its theorems at concrete states.
use literate_os.Common.{
  ℕ, zero, suc, ◌+◌, ◌*◌, ◌/◌, ◌<◌, ◌≡◌, refl, ◌⊎◌, Option, some, List, [], ◌∷◌, ◌==◌, ltb, leb,
  ◌&&◌, if◌then◌else◌, arith,
}
use literate_os.Common.Bits.{u32, add32, bit}
use literate_os.Memory.Physical.{
  Physical, MemoryMap, MemoryInfo, block_size, all_ones, get_first_free_memory_block,
  allocate_physical_memory_block, free_physical_memory_block, mark_memory_region_used,
  initialize_physical_allocator,
}
use literate_os.Memory.Physical.Bitmap.{block_bit}
use literate_os.Memory.Physical.Search.{AllTaken, IsFirstFree, get_first_free_memory_block_lem}
use literate_os.Memory.Physical.Alloc.{HasBitmap, allocate-first, free-allocate}
use literate_os.Memory.Physical.Init.{
  length-all_ones, mark_memory_region_used-frees, allocate-initialize,
}

-- A bitmap in which only bit 5 of the second word is clear.
abbrev sparse : List ℕ
sparse = 0xffffffff ∷ 0xffffffdf ∷ 0xffffffff ∷ []

first_free-sparse : get_first_free_memory_block sparse ≡ 37
unfolding get_first_free_memory_block
first_free-sparse = refl

get_first_free_memory_block_lem_example :
    (AllTaken sparse × (get_first_free_memory_block sparse ≡ 0))
    ⊎ IsFirstFree sparse (get_first_free_memory_block sparse)
get_first_free_memory_block_lem_example = get_first_free_memory_block_lem sparse

-- All blocks are taken but those whose bits are clear in the first word.
abbrev with_word : ℕ → ℕ → Physical
with_word w n = record { bitmap = w ∷ all_ones 32767; used = n; max_blocks = 8192 }

abbrev two_free : Physical
two_free = with_word 0xfffffff9 100

with_word-HasBitmap : (w n : ℕ) → HasBitmap (with_word w n)
with_word-HasBitmap w n = omega (arith, length-all_ones 32767)

block_1_first : IsFirstFree two_free.bitmap 1
unfolding block_bit bit
block_1_first = record { inside = omega arith; free = refl; before = first }
  where
    first : (p : ℕ) → p < 1 → block_bit two_free.bitmap p ≡ 1
    first zero h = refl
    first (suc p) h = absurd (omega arith)

first_run : allocate_physical_memory_block two_free ≡ some (4096, with_word 0xfffffffb 101)
unfolding allocate_physical_memory_block
first_run = refl

second_run :
    allocate_physical_memory_block (with_word 0xfffffffb 101)
    ≡ some (8192, with_word 0xffffffff 102)
unfolding allocate_physical_memory_block
second_run = refl

allocate-first_example :
    (s' : Physical) × (allocate_physical_memory_block two_free ≡ some (1 * block_size, s'))
    × ((c : ℕ) → block_bit s'.bitmap c ≡ (if c == 1 then 1 else block_bit two_free.bitmap c))
    × (s'.used ≡ add32 100 1)
    × HasBitmap s'
allocate-first_example =
    allocate-first two_free 1 (with_word-HasBitmap 0xfffffff9 100) block_1_first (omega arith)

free-allocate_example :
    (t : Physical) × (free_physical_memory_block 4096 (with_word 0xfffffffb 101) ≡ some t)
    × ((c : ℕ) → block_bit t.bitmap c ≡ block_bit two_free.bitmap c)
    × (t.used ≡ 100)
free-allocate_example =
    free-allocate two_free (with_word-HasBitmap 0xfffffff9 100) (omega arith) first_run
      (omega arith)

mark_memory_region_used-frees_example :
    (s' : Physical) × (mark_memory_region_used 0x4000 0x2000 two_free ≡ some s')
    × ((c : ℕ)
        → block_bit s'.bitmap c ≡ (
            if leb (0x4000 / block_size) c
              && ltb c (0x4000 / block_size + (0x2000 / block_size + 1))
            then 0
            else block_bit two_free.bitmap c))
    × (s'.used ≡ u32 (100 + (0x2000 / block_size + 1)))
    × HasBitmap s'
mark_memory_region_used-frees_example =
    mark_memory_region_used-frees 0x4000 0x2000 two_free (with_word-HasBitmap 0xfffffff9 100)
      (omega arith) (omega arith)

-- A region marker that leaves the bitmap alone, and a memory map of one kind of entry.
abbrev no_marks : ℕ → ℕ → Physical → Option Physical
no_marks base size s = some s

abbrev entry : MemoryMap
entry = record { size = 20; base = 0x100000; length = 0x1000; kind = 1 }

abbrev entries : ℕ → Option MemoryMap
entries at = some entry

abbrev boot_info : MemoryInfo
boot_info = record { memory_low = 640; memory_high = 65536; mem_map = 0x9000; memory_map_len = 24 }

allocate-initialize_example :
    (s' : Physical) × (initialize_physical_allocator no_marks entries 1000 boot_info two_free
      ≡ some s')
    × (allocate_physical_memory_block s' ≡ some (0, s'))
allocate-initialize_example =
    allocate-initialize no_marks entries (λ base size s len fits. (s, refl, len, fits)) 1000
      boot_info two_free (omega arith) (λ at from h. (entry, refl, omega arith)) (omega arith)
      (omega arith)
