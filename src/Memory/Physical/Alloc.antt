-- ===== src/Memory/Physical/Alloc.antt =====
-- Allocation and release of blocks. A bitmap has the length that the source gives it.
use literate_os.Common.{
  ℕ, ◌*◌, ◌/◌, ◌^◌, ◌<◌, ◌≡◌, refl, ◌∙◌, ◌≢◌, ◌⊎◌, inl, inr, false, some, List, ◌==◌, if◌then◌else◌,
  Bool-cases, arith, length,
}
use literate_os.Common.Bits.{u32, add32, sub32}
use literate_os.Memory.Physical.{
  Physical, bitmap_dwords, block_size, allocate_physical_memory_block, free_physical_memory_block,
  get_first_free_memory_block,
}
use literate_os.Memory.Physical.Bitmap.{
  block_bit, Free, bit_set-succeeds, bit_clear-succeeds, block_bit-bit_set, block_bit-bit_clear,
}
use literate_os.Memory.Physical.Search.{AllTaken, IsFirstFree, get_first_free_memory_block_lem}

abbrev pub HasBitmap : Physical → Type 0
HasBitmap s = length s.bitmap ≡ bitmap_dwords

first_free_unique : (m : List ℕ) {p q : ℕ} → IsFirstFree m p → IsFirstFree m q → p ≡ q
first_free_unique m {p} {q} f g = ground (arith, f.before q, g.before p, f.free, g.free)

get_first-eq : (m : List ℕ) {q : ℕ} → IsFirstFree m q → get_first_free_memory_block m ≡ q
get_first-eq m {q} f = elim (get_first_free_memory_block_lem m) [
  | inl (all, e) ↦ absurd (omega (arith, all q f.inside, f.free))
  | inr g ↦ first_free_unique m g f
]

-- If `q` is the first free block and is not block 0, the allocation returns its address, takes
-- exactly that block and counts it.
pub allocate-first :
    (s : Physical) (q : ℕ)
    → HasBitmap s
    → IsFirstFree s.bitmap q
    → 0 < q
    → (s' : Physical) × (allocate_physical_memory_block s ≡ some (q * block_size, s'))
      × ((c : ℕ) → block_bit s'.bitmap c ≡ (if c == q then 1 else block_bit s.bitmap c))
      × (s'.used ≡ add32 s.used 1)
      × HasBitmap s'
unfolding allocate_physical_memory_block
allocate-first s q len f pos =
    let (m, e, kept) = bit_set-succeeds s.bitmap q f.inside in
    let nonzero : (q == 0) ≡ false = ground arith in
    let inside : q / 32 < bitmap_dwords = rw (← len) f.inside in
    let no_wrap : u32 (q * block_size) ≡ q * block_size = omega arith in
    (
      record s { bitmap = m; used = add32 s.used 1 },
      rw (get_first-eq s.bitmap f, nonzero, e, no_wrap),
      block_bit-bit_set s.bitmap q e,
      refl,
      kept ∙ len,
    )

-- Without a free block, and with block 0 free, the allocation returns 0 and changes nothing.
pub allocate-zero :
    (s : Physical)
    → HasBitmap s
    → AllTaken s.bitmap ⊎ Free s.bitmap 0
    → allocate_physical_memory_block s ≡ some (0, s)
unfolding allocate_physical_memory_block
allocate-zero s len h = rw (first_zero h)
  where
    first_zero : AllTaken s.bitmap ⊎ Free s.bitmap 0 → get_first_free_memory_block s.bitmap ≡ 0
    first_zero (inl all) = elim (get_first_free_memory_block_lem s.bitmap) [
      | inl (_, e) ↦ e
      | inr f ↦ absurd (omega (arith, f.free, all _ f.inside))
    ]
    first_zero (inr free) =
        get_first-eq s.bitmap
          (record { inside = omega arith; free = free; before = λ p h. absurd (omega arith) })

-- What a successful allocation of an address other than 0 tells.
pub record IsAllocation (s : Physical) (addr : ℕ) (s' : Physical) : Type 0 where
  pub block : ℕ
  pub first : IsFirstFree s.bitmap block
  pub pos : 0 < block
  pub address : addr ≡ block * block_size
  pub bits : (c : ℕ) → block_bit s'.bitmap c ≡ (if c == block then 1 else block_bit s.bitmap c)
  pub count : s'.used ≡ add32 s.used 1
  pub kept : HasBitmap s'

allocate-IsAllocation :
    (s : Physical) {addr : ℕ} {s' : Physical}
    → HasBitmap s
    → allocate_physical_memory_block s ≡ some (addr, s')
    → addr ≢ 0
    → IsAllocation s addr s'
allocate-IsAllocation s {addr} {s'} len e ne = elim (get_first_free_memory_block_lem s.bitmap) [
  | inl (all, _) ↦ absurd (ne (cc (allocate-zero s len (inl all))))
  | inr f ↦ elim (Bool-cases (get_first_free_memory_block s.bitmap == 0)) [
    | inl zero_block ↦
        let z : get_first_free_memory_block s.bitmap ≡ 0 = ground arith in
        absurd (ne (cc (allocate-zero s len (inr (rw z at f.free)))))
    | inr nonzero ↦
        let pos : 0 < get_first_free_memory_block s.bitmap = ground arith in
        let (t, run, bits, count, kept) = allocate-first s _ len f pos in
        let same : s' ≡ t = cc run in
        record {
          block = get_first_free_memory_block s.bitmap;
          first = f;
          pos = pos;
          address = cc run;
          bits = rw same bits;
          count = rw same count;
          kept = rw same kept;
        }
  ]
]

-- An allocation always returns, if only 0.
pub allocate-total :
    (s : Physical)
    → HasBitmap s
    → (addr : ℕ) × (s' : Physical) × (allocate_physical_memory_block s ≡ some (addr, s'))
      × HasBitmap s'
      × (((addr ≡ 0) × (s' ≡ s) × (AllTaken s.bitmap ⊎ Free s.bitmap 0)) ⊎ IsAllocation s addr s')
allocate-total s len = elim (get_first_free_memory_block_lem s.bitmap) [
  | inl (all, _) ↦ (0, s, allocate-zero s len (inl all), len, inl (refl, refl, inl all))
  | inr f ↦ elim (Bool-cases (get_first_free_memory_block s.bitmap == 0)) [
    | inl zero_block ↦
        let z : get_first_free_memory_block s.bitmap ≡ 0 = ground arith in
        (
          0,
          s,
          allocate-zero s len (inr (rw z at f.free)),
          len,
          inl (refl, refl, inr (rw z at f.free)),
        )
    | inr nonzero ↦
        let pos : 0 < get_first_free_memory_block s.bitmap = ground arith in
        let (t, run, bits, count, kept) = allocate-first s _ len f pos in
        (_, t, run, kept, inr (allocate-IsAllocation s len run (omega arith)))
  ]
]

-- Two allocations in a row never return the same block.
pub allocate-allocate-ne :
    (s : Physical) {a b : ℕ} {s' s'' : Physical}
    → HasBitmap s
    → allocate_physical_memory_block s ≡ some (a, s')
    → allocate_physical_memory_block s' ≡ some (b, s'')
    → a ≢ 0
    → b ≢ 0
    → a ≢ b
allocate-allocate-ne s {a} {b} {s'} len run run' na nb same =
    let p = allocate-IsAllocation s len run na in
    let q = allocate-IsAllocation s' p.kept run' nb in
    ground (arith, p.address, q.address, p.bits q.block, q.first.free)

-- Freeing an address below 4 GiB succeeds: it frees the block that holds it, leaves the others and
-- counts one block less.
pub free_physical_memory_block_lem :
    (s : Physical) (addr : ℕ)
    → HasBitmap s
    → addr < 2 ^ 32
    → (s' : Physical) × (free_physical_memory_block addr s ≡ some s')
      × ((c : ℕ)
          → block_bit s'.bitmap c ≡ (if c == addr / block_size then 0 else block_bit s.bitmap c))
      × (s'.used ≡ sub32 s.used 1)
unfolding free_physical_memory_block
free_physical_memory_block_lem s addr len h =
    let (m, e, kept) = bit_clear-succeeds s.bitmap (addr / block_size) (rw len (omega arith)) in
    (
      record s { bitmap = m; used = sub32 s.used 1 },
      rw e,
      block_bit-bit_clear s.bitmap (addr / block_size) e,
      refl,
    )

-- Freeing what was just allocated gives every block and the count back.
pub free-allocate :
    (s : Physical) {addr : ℕ} {s' : Physical}
    → HasBitmap s
    → s.used < 2 ^ 32
    → allocate_physical_memory_block s ≡ some (addr, s')
    → addr ≢ 0
    → (t : Physical) × (free_physical_memory_block addr s' ≡ some t)
      × ((c : ℕ) → block_bit t.bitmap c ≡ block_bit s.bitmap c)
      × (t.used ≡ s.used)
free-allocate s {addr} {s'} len fits run ne =
    let p = allocate-IsAllocation s len run ne in
    let inside : p.block / 32 < bitmap_dwords = rw (← len) p.first.inside in
    let (t, freed, bits, count) =
      free_physical_memory_block_lem s' addr p.kept (omega (arith, p.address)) in
    let same : addr / block_size ≡ p.block = omega (arith, p.address) in
    (t, freed, λ c. ground (arith, bits c, p.bits c, p.first.free), omega (arith, count, p.count))
