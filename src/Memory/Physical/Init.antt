-- ===== src/Memory/Physical/Init.antt =====
-- `MarkMemoryRegionUsed`, and the state that `InitializePhysicalAllocator` leaves behind.
use literate_os.Common.{ap}
use literate_os.Common.{
  ℕ, zero, suc, ◌+◌, ◌*◌, ◌/◌, ◌^◌, ◌≤◌, ◌<◌, ◌≡◌, refl, ◌∙◌, inr, inl, Option, none, some, true,
  ◌==◌, ltb, leb, ◌&&◌, if◌then◌else◌, Bool-cases, arith, length, length-replicate,
}
use literate_os.Common.Bits.{u32, add32}
use literate_os.Memory.Physical.{
  Physical, MemoryMap, MemoryInfo, bitmap_dwords, block_size, all_ones, ◌>>=◌, >>=-eq-some,
  sizeof_memory_map, mark_blocks, mark_memory_region_used, scan_memory_map,
  initialize_physical_allocator, allocate_physical_memory_block,
}
use literate_os.Memory.Physical.Bitmap.{block_bit, bit_clear-succeeds, block_bit-bit_clear}
use literate_os.Memory.Physical.Alloc.{HasBitmap, allocate-zero}

pub length-all_ones : (n : ℕ) → length (all_ones n) ≡ n
unfolding all_ones
length-all_ones n = length-replicate n _

-- `n` rounds from block `align` on clear exactly the bits of those blocks.
mark_blocks_lem :
    (n align : ℕ) (s : Physical)
    → HasBitmap s
    → s.used < 2 ^ 32
    → align + n ≤ 32 * bitmap_dwords
    → (s' : Physical) × (mark_blocks n align s ≡ some s')
      × ((c : ℕ)
          → block_bit s'.bitmap c
            ≡ (if leb align c && ltb c (align + n) then 0 else block_bit s.bitmap c))
      × (s'.used ≡ u32 (s.used + n))
      × HasBitmap s'
unfolding mark_blocks
mark_blocks_lem zero align s len small fits = (s, refl, λ c. ground arith, omega arith, len)
mark_blocks_lem (suc n) align s len small fits =
    let (m, e, kept) = bit_clear-succeeds s.bitmap align (omega (arith, len)) in
    let (t, run, bits, count, kept') =
      mark_blocks_lem n (add32 align 1) (record s { bitmap = m; used = add32 s.used 1 })
        (kept ∙ len) (omega arith) (omega arith) in
    (
      t,
      rw e run,
      λ c. ground (arith, bits c, block_bit-bit_clear s.bitmap align e c),
      omega (arith, count),
      kept',
    )

-- A region inside the first 4 GiB: `MarkMemoryRegionUsed` succeeds, makes each of its blocks free
-- (one more than `size / 4096` of them), leaves the others, and counts them as used.
pub mark_memory_region_used-frees :
    (base size : ℕ) (s : Physical)
    → HasBitmap s
    → s.used < 2 ^ 32
    → base / block_size + size / block_size + 1 ≤ 32 * bitmap_dwords
    → (s' : Physical) × (mark_memory_region_used base size s ≡ some s')
      × ((c : ℕ)
          → block_bit s'.bitmap c ≡ (
              if leb (base / block_size) c && ltb c (base / block_size + (size / block_size + 1))
              then 0
              else block_bit s.bitmap c))
      × (s'.used ≡ u32 (s.used + (size / block_size + 1)))
      × HasBitmap s'
unfolding mark_memory_region_used
mark_memory_region_used-frees base size s len small fits =
    mark_blocks_lem (size / block_size + 1) (base / block_size) s len small (omega arith)

-- What the model asks of `MarkMemoryRegionFree`: it returns, and keeps the array and the count's width.
abbrev pub MarksRegions : (ℕ → ℕ → Physical → Option Physical) → Type 0
MarksRegions mark =
    (base size : ℕ) (s : Physical)
    → HasBitmap s
    → s.used < 2 ^ 32
    → (s' : Physical) × (mark base size s ≡ some s') × HasBitmap s' × (s'.used < 2 ^ 32)

-- From `first` up to `end` an entry can be read, and it does not reach past the last address.
abbrev pub IsMemoryMap : (ℕ → Option MemoryMap) → (first end : ℕ) → Type 0
IsMemoryMap entry_at first end =
    (at : ℕ)
    → first ≤ at
    → at < end
    → (e : MemoryMap) × (entry_at at ≡ some e) × (at + e.size + 4 < 2 ^ 32)

module _ (mark : ℕ → ℕ → Physical → Option Physical) (entry_at : ℕ → Option MemoryMap) where
  scan-unreadable :
      (fuel at end : ℕ) (s : Physical)
      → 0 < fuel
      → at < end
      → entry_at at ≡ none
      → scan_memory_map mark entry_at fuel at end s ≡ none
  unfolding scan_memory_map
  scan-unreadable zero at end s pos more unread = absurd (omega arith)
  scan-unreadable (suc fuel) at end s pos more unread =
      let within : ltb at end ≡ true = ground arith in rw (within, unread) refl

  -- A map whose first entry cannot be read stops the kernel.
  pub initialize-unreadable :
      (fuel : ℕ) (info : MemoryInfo) (s : Physical)
      → 0 < fuel
      → info.mem_map < u32 (info.mem_map + info.memory_map_len * sizeof_memory_map)
      → entry_at info.mem_map ≡ none
      → initialize_physical_allocator mark entry_at fuel info s ≡ none
  unfolding initialize_physical_allocator
  initialize-unreadable fuel info s pos more unread =
      let scanned =
        scan-unreadable fuel info.mem_map
          (u32 (info.mem_map + info.memory_map_len * sizeof_memory_map))
          (record s { bitmap = all_ones bitmap_dwords }) pos more unread in
      ap
        (λ (t : Option Physical). t >>= λ s'.
          mark_memory_region_used 0 (6144 * 4096)
            (record s' { max_blocks = u32 (info.memory_high * 1024) / block_size }))
        scanned

module _ (mark : ℕ → ℕ → Physical → Option Physical) (entry_at : ℕ → Option MemoryMap)
    (marks : MarksRegions mark) where
  mark_entry :
      (e : MemoryMap) (s : Physical)
      → HasBitmap s
      → s.used < 2 ^ 32
      → (s' : Physical) × ((if e.kind == 1 then mark (u32 e.base) (u32 e.length) s else some s)
          ≡ some s')
        × HasBitmap s'
        × (s'.used < 2 ^ 32)
  mark_entry e s len small = elim (Bool-cases (e.kind == 1)) [
    | inl available ↦ rw available (marks (u32 e.base) (u32 e.length) s len small)
    | inr other ↦ rw other (s, refl, len, small)
  ]

  -- The scan ends: each round moves on by 4 bytes at least.
  scan_memory_map_total :
      (fuel first at end : ℕ) (s : Physical)
      → IsMemoryMap entry_at first end
      → first ≤ at
      → HasBitmap s
      → s.used < 2 ^ 32
      → 0 < fuel
      → end < at + fuel
      → (s' : Physical) × (scan_memory_map mark entry_at fuel at end s ≡ some s')
        × HasBitmap s'
        × (s'.used < 2 ^ 32)
  unfolding scan_memory_map
  scan_memory_map_total zero first at end s map from len small pos enough = absurd (omega arith)
  scan_memory_map_total (suc n) first at end s map from len small pos enough =
      elim (Bool-cases (ltb at end)) [
        | inl more ↦
            let h : at < end = ground arith in
            let (e, read, within) = map at from h in
            let (t, run, len', small') = mark_entry e s len small in
            let next = add32 (add32 at e.size) 4 in
            let (u, run', kept, small'') =
              scan_memory_map_total n first next end t map (omega (arith, within)) len' small'
                (omega arith) (omega (arith, within)) in
            (u, rw (more, read, run) run', kept, small'')
        | inr over ↦ rw over (s, refl, len, small)
      ]

  -- If the count of used blocks fits into 32 bits, every entry of the memory map can be read and none reaches
  -- past the last address, and
  -- `MarkMemoryRegionFree` returns, then `InitializePhysicalAllocator` returns, in as many rounds as the map has
  -- bytes, and because `MarkMemoryRegionUsed(0, …)` clears the bits, block 0 is free afterwards: every allocation
  -- then returns 0 and changes nothing.
  pub allocate-initialize :
      (fuel : ℕ) (info : MemoryInfo) (s : Physical)
      → s.used < 2 ^ 32
      → IsMemoryMap entry_at info.mem_map
          (u32 (info.mem_map + info.memory_map_len * sizeof_memory_map))
      → 0 < fuel
      → u32 (info.mem_map + info.memory_map_len * sizeof_memory_map) < info.mem_map + fuel
      → (s' : Physical) × (initialize_physical_allocator mark entry_at fuel info s ≡ some s')
        × (allocate_physical_memory_block s' ≡ some (0, s'))
  unfolding initialize_physical_allocator
  allocate-initialize fuel info s small map pos enough =
      let (t, scanned, len, small') =
        scan_memory_map_total fuel info.mem_map info.mem_map
          (u32 (info.mem_map + info.memory_map_len * sizeof_memory_map))
          (record s { bitmap = all_ones bitmap_dwords }) map (omega arith)
          (length-all_ones bitmap_dwords) small pos enough in
      let (u, marked, bits, count, len') =
        mark_memory_region_used-frees 0 (6144 * 4096)
          (record t { max_blocks = u32 (info.memory_high * 1024) / block_size }) len small'
          (omega arith) in
      (u, >>=-eq-some _ scanned marked, allocate-zero u len' (inr (bits 0)))
