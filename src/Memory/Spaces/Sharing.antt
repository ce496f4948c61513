-- ===== src/Memory/Spaces/Sharing.antt =====
-- What `CreateAddressSpace` puts into a new page directory.
use literate_os.Common.{
  ℕ, zero, suc, ◌+◌, ◌<◌, bit_or, ◌≡◌, refl, ◌∙◌, some, true, false, ◌==◌, leb, ltb, ◌&&◌,
  if◌then◌else◌, arith, Bool-cases, inl, inr,
}
use literate_os.Common.Run.{ok}
use literate_os.Memory.Paging.{
  Paging, page_present, page_writable, page_directory_index, set_flags, set_page_frame, table_phys,
}
use literate_os.Memory.Paging.Frames.{page_directory_index-aligned}
use literate_os.Memory.Paging.Allocate.{kernel_allocate_virtual_pages}
use literate_os.Memory.Spaces.{
  Spaces, set_at, allocate_block, map_pages_at, share_tables, map_tables, open_entries,
  create_address_space,
}
use literate_os.Memory.Spaces.Backing.{allocate_kernel_pages-some}
use literate_os.Scheduler.{PageDirectoryPtr}

-- An entry with the number of a kernel's table and the flags of the kernel.
abbrev pub shared_entry : (kernel : Paging) → ℕ → ℕ → ℕ
shared_entry kernel entry i =
    set_page_frame (set_flags entry (bit_or page_present page_writable)) (table_phys kernel i)

share_tables_lem :
    (left i : ℕ) (kernel d : Paging) (k : ℕ)
    → (share_tables left i kernel d).directory k ≡ (
        if leb i k && ltb k (i + left)
        then shared_entry kernel (d.directory k) k
        else d.directory k)
unfolding share_tables
share_tables_lem zero i kernel d k =
    let none_in : (leb i k && ltb k (i + 0)) ≡ false = ground arith in rw none_in
share_tables_lem (suc left) i kernel d k =
    let d' = record d {
      directory = λ a. if a == i then shared_entry kernel (d.directory i) i else d.directory a;
    } in
    elim (Bool-cases (k == i)) [
      | inl first ↦
          let is : k ≡ i = ground arith in
          let before : (leb (i + 1) k && ltb k (i + 1 + left)) ≡ false = ground arith in
          let within : (leb i k && ltb k (i + suc left)) ≡ true = ground arith in
          share_tables_lem left (i + 1) kernel d' k ∙ rw (before, within, first, is)
      | inr later ↦
          let same : (leb (i + 1) k && ltb k (i + 1 + left)) ≡ (leb i k && ltb k (i + suc left)) =
            ground arith in
          share_tables_lem left (i + 1) kernel d' k ∙ rw (same, later)
    ]

kernel_part : page_directory_index 0xC0000000 ≡ 0
kernel_part = page_directory_index-aligned 0xC0000000 refl

-- If `CreateAddressSpace` finds its pages and a block, it returns, and each of the 1024 entries of the new
-- directory, those of the user's part included, is what its loop writes for a kernel's entry: a cleared
-- entry with the bits for present and writable and then the physical address of the kernel's own table of
-- that index. The index of the address 0xC0000000, where the kernel's part begins, is 0.
pub create_address_space-shares :
    (m m₂ : Spaces) (directory phys tables : ℕ) (d₁ d₂ : Paging)
    → kernel_allocate_virtual_pages 1 (m.at m.kernel) ≡ some (directory, d₁)
    → allocate_block (set_at m.kernel d₁ m) ≡ ok (phys, m₂)
    → kernel_allocate_virtual_pages 0 ((map_pages_at phys directory 1 m₂).at m₂.kernel)
      ≡ some (tables, d₂)
    → (ptr : PageDirectoryPtr) × (m' : Spaces) × (create_address_space m ≡ ok (ptr, m'))
      × ((i : ℕ)
          → i < 1024
          → (m'.at ptr.page_directory).directory i
            ≡ shared_entry ((map_pages_at phys directory 1 m₂).at m₂.kernel) 0 i)
unfolding create_address_space map_tables open_entries
create_address_space-shares m m₂ directory phys tables d₁ d₂ found₁ taken found₂ =
    let m₃ = map_pages_at phys directory 1 m₂ in
    let cleared : Paging = record {
      directory = λ i. 0;
      tables = λ i j. if ltb i 0 then 0 else (m₃.at directory).tables i j;
      tables_at = 0;
    } in
    let kernel = m₃.at m₂.kernel in
    let shared = share_tables 1024 0 kernel cleared in
    let ptr : PageDirectoryPtr = record {
      page_directory = directory;
      page_directory_phys = phys;
      page_tables = tables;
    } in
    let m' = set_at directory (record shared { tables_at = tables }) (set_at m₂.kernel d₂ m₃) in
    let here : (directory == directory) ≡ true = ground arith in
    (
      ptr,
      m',
      rw (
        kernel_part,
        allocate_kernel_pages-some 1 m found₁,
        taken,
        allocate_kernel_pages-some 0 m₃ found₂,
      ),
      λ i small.
          let within : (leb 0 i && ltb i (0 + 1024)) ≡ true = ground arith in
          rw here (share_tables_lem 1024 0 kernel cleared i ∙ rw within),
    )
