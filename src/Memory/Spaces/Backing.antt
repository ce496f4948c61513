-- ===== src/Memory/Spaces/Backing.antt =====
-- Pages that are mapped one by one to new blocks: what the loops of `SysMemalloc`, of `CreateProcess` and of
-- `CreateAddressSpace` do.
use literate_os.Common.{
  length, ℕ, suc, ◌+◌, ◌*◌, ◌/◌, ◌%◌, ◌^◌, ◌<◌, ◌≤◌, ◌≡◌, refl, sym, ap, ◌∙◌, ◌≢◌, ◌⊎◌, inl, inr,
  ◌==◌, some, if◌then◌else◌, arith, Bool-cases, true, false,
}
use literate_os.Common.Bits.{u32}
use literate_os.Memory.Physical.{Physical, block_size}
use literate_os.Memory.Physical.Bitmap.{block_bit, Free, Taken}
use literate_os.Memory.Physical.Search.{AllTaken}
use literate_os.Memory.Physical.Alloc.{HasBitmap, IsAllocation, allocate-total}
use literate_os.Common.Run.{ok}
use literate_os.Memory.Spaces.{Spaces, set_at, allocate_block, allocate_kernel_pages}
use literate_os.Memory.Paging.Allocate.{kernel_allocate_virtual_pages}
use literate_os.Memory.Paging.{
  Paging, page_size, map_page, map_pages, map_virtual_pages, map_virtual_pages_in, table_phys,
  virtual_to_physical_address,
}
use literate_os.Memory.Paging.Mapping.{virtual_to_physical-map_page}

-- The index of page `i` of a region, as `PAGE_TABLE_INDEX` has it.
abbrev pub page_index : (virt i : ℕ) → ℕ
page_index virt i = (virt / 4096 + i) % 1024

-- The block of a page: 0, if every block is taken afterwards or block 0 was free, which the allocator finds
-- and does not give out; or one that was free before and is taken afterwards.
pub data NewBlock (s s' : Physical) (addr : ℕ) : Type 0 where
  none_left : addr ≡ 0 → AllTaken s'.bitmap ⊎ Free s.bitmap 0 → NewBlock s s' addr
  new_block :
      (b : ℕ) → addr ≡ b * block_size → Free s.bitmap b → Taken s'.bitmap b → NewBlock s s' addr

-- From `s` and `d` to `s'` and `d'`, `left` pages from page `i` of the region at `virt` on have been mapped.
-- Different pages have different blocks, no block was freed, and no page with another index has changed.
pub record Backed (virt left i : ℕ) (s : Physical) (d : Paging) (s' : Physical) (d' : Paging)
    : Type 0 where
  pub frames : ℕ → ℕ
  pub translated :
      (k : ℕ)
      → i ≤ k
      → k < i + left
      → (addr : ℕ) → addr % 4096 ≡ 0
      → addr / 4096 % 1024 ≡ page_index virt k
      → virtual_to_physical_address addr d' ≡ frames k % 2 ^ 31
  pub others :
      (addr : ℕ)
      → addr % 4096 ≡ 0
      → ((k : ℕ) → i ≤ k → k < i + left → addr / 4096 % 1024 ≢ page_index virt k)
      → virtual_to_physical_address addr d' ≡ virtual_to_physical_address addr d
  pub blocks : (k : ℕ) → i ≤ k → k < i + left → NewBlock s s' (frames k)
  pub distinct :
      (j k : ℕ)
      → i ≤ j
      → j < i + left
      → i ≤ k
      → k < i + left
      → j ≢ k
      → frames j ≢ 0
      → frames j ≢ frames k
  pub kept : (c : ℕ) → Taken s.bitmap c → Taken s'.bitmap c
  pub bitmap : HasBitmap s'

pub Backed-nil : (virt i : ℕ) (s : Physical) (d : Paging) → HasBitmap s → Backed virt 0 i s d s d
Backed-nil virt i s d len = record {
  frames = λ k. 0;
  translated = λ k low high. absurd (omega arith);
  others = λ addr aligned out. refl;
  blocks = λ k low high. absurd (omega arith);
  distinct = λ j k low high. absurd (omega arith);
  kept = λ c t. t;
  bitmap = len;
}

-- What one allocation does to the bitmap.
abbrev pub Step : (s s₁ : Physical) (phys : ℕ) → Type 0
Step s s₁ phys =
    ((phys ≡ 0) × (s₁ ≡ s) × (AllTaken s.bitmap ⊎ Free s.bitmap 0)) ⊎ IsAllocation s phys s₁

pub allocate_block-total :
    (m : Spaces)
    → HasBitmap m.physical
    → (phys : ℕ) × (s : Physical) × (allocate_block m ≡ ok (phys, record m { physical = s }))
      × Step m.physical s phys
unfolding allocate_block
allocate_block-total m len =
    let (phys, s, run, kept, step) = allocate-total m.physical len in (phys, s, rw run, step)

Step-kept :
    {s s₁ : Physical} {phys : ℕ} → Step s s₁ phys → (c : ℕ) → Taken s.bitmap c → Taken s₁.bitmap c
Step-kept (inl (none, same, full)) c t = ap (λ (u : Physical). block_bit u.bitmap c) same ∙ t
Step-kept (inr a) c t = a.bits c ∙ ground arith

pub Step-bitmap : {s s₁ : Physical} {phys : ℕ} → HasBitmap s → Step s s₁ phys → HasBitmap s₁
Step-bitmap len (inl (none, same, full)) = ap (λ (u : Physical). length u.bitmap) same ∙ len
Step-bitmap len (inr a) = a.kept

Step-address :
    {s s₁ : Physical} {phys : ℕ}
    → HasBitmap s
    → Step s s₁ phys
    → (phys < 2 ^ 32) × (phys % 4096 ≡ 0)
Step-address len (inl (none, same, full)) = (omega arith, omega arith)
Step-address len (inr a) = (omega (arith, len, a.first.inside, a.address), omega (arith, a.address))

Step-NewBlock :
    {s s₁ s' : Physical} {phys : ℕ}
    → HasBitmap s
    → Step s s₁ phys
    → HasBitmap s'
    → ((c : ℕ) → Taken s₁.bitmap c → Taken s'.bitmap c)
    → NewBlock s s' phys
Step-NewBlock len (inl (none, same, inr zero_free)) len' kept = none_left none (inr zero_free)
Step-NewBlock {s} {s₁} {s'} len (inl (none, same, inl all)) len' kept = none_left none (
    inl (λ p h.
      kept p
        (ap (λ (u : Physical). block_bit u.bitmap p) same ∙ all p (omega (arith, h, len, len')))))
Step-NewBlock len (inr a) len' kept =
    new_block a.block a.address a.first.free (kept a.block (a.bits a.block ∙ ground arith))

was-Free :
    {s s₁ : Physical} {phys : ℕ} (b : ℕ) → Step s s₁ phys → Free s₁.bitmap b → Free s.bitmap b
was-Free b (inl (none, same, full)) free =
    ap (λ (u : Physical). block_bit u.bitmap b) (sym same) ∙ free
was-Free b (inr a) free = ground (arith, a.bits b)

-- A block that is new later on was free before.
later-NewBlock :
    {s s₁ s' : Physical} {phys addr : ℕ} → Step s s₁ phys → NewBlock s₁ s' addr → NewBlock s s' addr
later-NewBlock a (none_left none (inl all)) = none_left none (inl all)
later-NewBlock a (none_left none (inr zero_free)) = none_left none (inr (was-Free 0 a zero_free))
later-NewBlock {s} {s₁} a (new_block b at free taken) = new_block b at (was-Free b a free) taken

-- A block that is new later on is another one.
later-ne :
    {s s₁ s' : Physical} {phys addr : ℕ}
    → Step s s₁ phys
    → NewBlock s₁ s' addr
    → phys ≢ 0
    → phys ≢ addr
later-ne (inl (none, same, full)) new nz = absurd (nz none)
later-ne (inr a) (none_left none full) nz = ground arith
later-ne (inr a) (new_block b at free taken) nz = ground (arith, a.bits b, a.address)

-- One more page in front.
abbrev front : (i phys : ℕ) → (ℕ → ℕ) → ℕ → ℕ
front i phys frames k = if k == i then phys else frames k

module _ (f : ℕ → ℕ) (virt left i : ℕ) {s s₁ s' : Physical} (d : Paging) {d' : Paging} (phys : ℕ)
    (aligned : virt % 4096 ≡ 0) (few : suc left ≤ 1024) (len : HasBitmap s) (a : Step s s₁ phys)
    (rest : Backed virt left
      (i + 1)
      s₁
      (map_page f phys (u32 (virt + i * page_size)) d)
      s'
      d') where
  first-translated :
      (addr : ℕ)
      → addr % 4096 ≡ 0
      → addr / 4096 % 1024 ≡ page_index virt i
      → virtual_to_physical_address addr d' ≡ phys % 2 ^ 31
  first-translated addr on_page here =
      let (small, phys_aligned) = Step-address len a in
      let same : (addr / 4096 % 1024 == u32 (virt + i * page_size) / 4096 % 1024) ≡ true =
        ground arith in
      rest.others addr on_page (λ k low high. omega arith)
      ∙ virtual_to_physical-map_page f phys (u32 (virt + i * page_size)) addr d small phys_aligned
          (omega arith) on_page
      ∙ rw same

  others-kept :
      (addr : ℕ)
      → addr % 4096 ≡ 0
      → ((k : ℕ) → i ≤ k → k < i + suc left → addr / 4096 % 1024 ≢ page_index virt k)
      → virtual_to_physical_address addr d' ≡ virtual_to_physical_address addr d
  others-kept addr on_page out =
      let (small, phys_aligned) = Step-address len a in
      let away = out i (omega arith) (omega arith) in
      let other : (addr / 4096 % 1024 == u32 (virt + i * page_size) / 4096 % 1024) ≡ false =
        ground arith in
      rest.others addr on_page (λ k low high. out k (omega arith) (omega arith))
      ∙ virtual_to_physical-map_page f phys (u32 (virt + i * page_size)) addr d small phys_aligned
          (omega arith) on_page
      ∙ rw other

  front-distinct :
      (j k : ℕ)
      → i ≤ j
      → j < i + suc left
      → i ≤ k
      → k < i + suc left
      → j ≢ k
      → front i phys rest.frames j ≢ 0
      → front i phys rest.frames j ≢ front i phys rest.frames k
  front-distinct j k low high low' high' ne = elim (Bool-cases (j == i)) [
    | inl first ↦
        let other : (k == i) ≡ false = ground arith in
        rw (first, other) (later-ne a (rest.blocks k (ground arith) (omega arith)))
    | inr later ↦ elim (Bool-cases (k == i)) [
      | inl first ↦
          rw (first, later)
            λ nz same.
              later-ne a (rest.blocks j (ground arith) (omega arith)) (λ z. nz (same ∙ z))
                (sym same)
      | inr other ↦
          rw (later, other)
            (rest.distinct j k (ground arith) (omega arith) (ground arith) (omega arith) ne)
    ]
  ]

  pub Backed-cons : Backed virt (suc left) i s d s' d'
  Backed-cons = record {
    frames = front i phys rest.frames;
    translated = λ k low high addr on_page here. elim (Bool-cases (k == i)) [
      | inl e ↦
          let is : k ≡ i = ground arith in
          rw e (first-translated addr on_page (here ∙ ap (page_index virt) is))
      | inr e ↦ rw e (rest.translated k (ground arith) (omega arith) addr on_page here)
    ];
    others = others-kept;
    blocks = λ k low high. elim (Bool-cases (k == i)) [
      | inl e ↦ rw e (Step-NewBlock len a rest.bitmap rest.kept)
      | inr e ↦ rw e (later-NewBlock a (rest.blocks k (ground arith) (omega arith)))
    ];
    distinct = front-distinct;
    kept = λ c t. rest.kept c (Step-kept a c t);
    bitmap = rest.bitmap;
  }

pub at-set_at : (p : ℕ) (d : Paging) (m : Spaces) → (set_at p d m).at p ≡ d
at-set_at p d m = let same : (p == p) ≡ true = ground arith in rw same

-- One page is one round of the loop of `MapVirtualPages`.
pub map_virtual_pages_in-one :
    (phys virt : ℕ) (current d : Paging)
    → (f : ℕ → ℕ) × ((map_virtual_pages_in phys virt 1 current d).1 ≡ map_page f phys virt d)
unfolding map_virtual_pages_in map_pages
map_virtual_pages_in-one phys virt current d =
    (λ i. virtual_to_physical_address (u32 (d.tables_at + i * page_size)) current, refl)

pub map_virtual_pages-one :
    (phys virt : ℕ) (d : Paging)
    → (f : ℕ → ℕ) × ((map_virtual_pages phys virt 1 d).1 ≡ map_page f phys virt d)
unfolding map_virtual_pages map_pages
map_virtual_pages-one phys virt d = (table_phys d, refl)

pub allocate_kernel_pages-some :
    (amount : ℕ) (m : Spaces) {addr : ℕ} {d : Paging}
    → kernel_allocate_virtual_pages amount (m.at m.kernel) ≡ some (addr, d)
    → allocate_kernel_pages amount m ≡ ok (addr, set_at m.kernel d m)
unfolding allocate_kernel_pages
allocate_kernel_pages-some amount m e = rw (allocate_kernel_pages, e)
