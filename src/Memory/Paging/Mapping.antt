-- ===== src/Memory/Paging/Mapping.antt =====
-- What mapping and freeing pages does to the translation of addresses.
use literate_os.Common.{
  ℕ, zero, suc, ◌+◌, ◌*◌, ◌/◌, ◌%◌, ◌^◌, ◌<◌, bit_or, ◌≡◌, refl, ap, ◌∙◌, ◌≢◌, ◌⊎◌, ◌==◌,
  if◌then◌else◌, arith, Bool-cases, inl, inr,
}
use literate_os.Common.Bits.{u32}
use literate_os.Memory.Paging.{
  Paging, page_size, page_present, page_writable, page_directory_index, page_table_index,
  set_page_frame, get_page_frame, clear_flags, set_page, page_at, virtual_to_physical_address,
  map_page, free_pages, free_virtual_pages, identity_page, identity_map, initialize_virtual_memory,
}
use literate_os.Memory.Paging.Frames.{
  page_directory_index-aligned, page_table_index-mod, bit_and-set_page_frame,
}

virtual_to_physical_aligned :
    (addr : ℕ) (d : Paging)
    → addr % 4096 ≡ 0
    → virtual_to_physical_address addr d
      ≡ u32 (get_page_frame (d.tables 0 (addr / 4096 % 1024)) * 2 ^ 12)
unfolding virtual_to_physical_address
virtual_to_physical_aligned addr d aligned =
    ap (λ (i : ℕ). u32 (get_page_frame (d.tables i (page_table_index addr)) * 2 ^ 12))
      (page_directory_index-aligned addr aligned)
    ∙ ap (λ (j : ℕ). u32 (get_page_frame (d.tables 0 j) * 2 ^ 12)) (page_table_index-mod addr)

-- A frame address that is set in an entry is translated without its bit 31.
translate :
    (p phys : ℕ)
    → phys < 2 ^ 32
    → phys % 4096 ≡ 0
    → u32 (get_page_frame (set_page_frame p phys) * 2 ^ 12) ≡ phys % 2 ^ 31
unfolding get_page_frame
translate p phys small aligned = omega (arith, bit_and-set_page_frame p phys small aligned)

-- After a page is mapped at `virt`, every page-aligned address that agrees with `virt` in its bits 12
-- to 21 is translated to the frame, less bit 31 of it; every other page-aligned address is translated
-- as before.
pub virtual_to_physical-map_page :
    (frame : ℕ → ℕ) (phys virt addr : ℕ) (d : Paging)
    → phys < 2 ^ 32
    → phys % 4096 ≡ 0
    → virt % 4096 ≡ 0
    → addr % 4096 ≡ 0
    → virtual_to_physical_address addr (map_page frame phys virt d) ≡ (
        if addr / 4096 % 1024 == virt / 4096 % 1024
        then phys % 2 ^ 31
        else virtual_to_physical_address addr d)
unfolding map_page
virtual_to_physical-map_page frame phys virt addr d small phys_aligned virt_aligned addr_aligned =
    rw
      (
        virtual_to_physical_aligned addr d addr_aligned,
        virtual_to_physical_aligned addr (map_page frame phys virt d) addr_aligned,
        page_directory_index-aligned virt virt_aligned,
        page_table_index-mod virt,
      )
      (elim (Bool-cases (addr / 4096 % 1024 == virt / 4096 % 1024)) [
        | inl same ↦ rw same (translate _ phys small phys_aligned)
        | inr other ↦ rw other
      ])

product-aligned : (virt i : ℕ) → virt % 4096 ≡ 0 → virt * i * page_size / 4096 % 1024 ≡ 0
product-aligned virt i aligned =
    let e : virt ≡ virt / 4096 * 4096 = omega arith in omega (arith, ap (λ (v : ℕ). v * i) e)

free_pages_other :
    (left k virt : ℕ) (d : Paging) (i j : ℕ)
    → virt % 4096 ≡ 0
    → (i ≢ 0) ⊎ (j ≢ 0)
    → (free_pages left k virt d).tables i j ≡ d.tables i j
unfolding free_pages
free_pages_other zero k virt d i j aligned other = refl
free_pages_other (suc left) k virt d i j aligned other =
    let at = u32 (virt * k * page_size) in
    let page = clear_flags (page_at d at) (bit_or page_present page_writable) in
    let d' = record d {
      tables = set_page d.tables (page_directory_index at) (page_table_index at) page;
    } in
    let table_zero : page_directory_index at ≡ 0 = page_directory_index-aligned at (omega arith) in
    let entry_zero : page_table_index at ≡ 0 =
      page_table_index-mod at ∙ omega (arith, product-aligned virt k aligned) in
    free_pages_other left (k + 1) virt d' i j aligned other ∙ ground (arith, table_zero, entry_zero)

-- `FreeVirtualPages` of any region that starts at a page clears the present and writable flags of
-- entry 0 of table 0, and of no other page: it multiplies the address by the index of the page.
pub free_virtual_pages-page_zero :
    (virt amount : ℕ) (d : Paging) (i j : ℕ)
    → virt % 4096 ≡ 0
    → (i ≢ 0) ⊎ (j ≢ 0)
    → (free_virtual_pages virt amount d).tables i j ≡ d.tables i j
unfolding free_virtual_pages
free_virtual_pages-page_zero virt amount d i j aligned other =
    free_pages_other amount 0 virt d i j aligned other

virtual_to_physical-identity_page :
    (frame addr : ℕ) (d : Paging)
    → frame < 2 ^ 32
    → frame % 4096 ≡ 0
    → addr % 4096 ≡ 0
    → virtual_to_physical_address addr (identity_page frame d)
      ≡ (if addr / 4096 % 1024 == 0 then frame % 2 ^ 31 else virtual_to_physical_address addr d)
unfolding identity_page
virtual_to_physical-identity_page frame addr d small frame_aligned aligned =
    rw
      (
        virtual_to_physical_aligned addr d aligned,
        virtual_to_physical_aligned addr (identity_page frame d) aligned,
        page_directory_index-aligned 0 refl,
        page_table_index-mod 0,
      )
      (elim (Bool-cases (addr / 4096 % 1024 == 0)) [
        | inl same ↦ rw same (translate _ frame small frame_aligned)
        | inr other ↦ rw other
      ])

-- The loop maps every frame at the same page, so only the last one stays.
identity_map_lem :
    (left frame addr : ℕ) (d : Paging)
    → frame + left * 4096 < 2 ^ 31
    → frame % 4096 ≡ 0
    → addr % 4096 ≡ 0
    → virtual_to_physical_address addr (identity_map (suc left) frame d) ≡ (
        if addr / 4096 % 1024 == 0 then frame + left * 4096 else virtual_to_physical_address addr d)
unfolding identity_map
identity_map_lem zero frame addr d fits frame_aligned aligned =
    ground (arith, virtual_to_physical-identity_page frame addr d)
identity_map_lem (suc left) frame addr d fits frame_aligned aligned =
    let next = u32 (frame + page_size) in
    ground (
      arith,
      identity_map_lem left next addr (identity_page frame d),
      virtual_to_physical-identity_page frame addr d,
    )

untouched :
    (addr : ℕ) (d : Paging)
    → addr % 4096 ≡ 0
    → d.tables 0 (addr / 4096 % 1024) ≡ 0
    → virtual_to_physical_address addr d ≡ 0
unfolding get_page_frame
untouched addr d aligned e =
    virtual_to_physical_aligned addr d aligned ∙ ap (λ (p : ℕ). u32 (get_page_frame p * 2 ^ 12)) e

-- `InitializeVirtualMemory` leaves no identity map of the first 16 MiB: page 0 of every 4 MiB is
-- translated to the last frame, 0xFFF000, and all other pages to 0.
pub virtual_to_physical-initialize :
    (tables_at addr : ℕ)
    → addr % 4096 ≡ 0
    → virtual_to_physical_address addr (initialize_virtual_memory tables_at)
      ≡ (if addr / 4096 % 1024 == 0 then 0xFFF000 else 0)
unfolding initialize_virtual_memory
virtual_to_physical-initialize tables_at addr aligned =
    let cleared : Paging = record {
      directory = λ i. page_writable;
      tables = λ i j. 0;
      tables_at = tables_at;
    } in
    identity_map_lem 4095 0 addr cleared (omega arith) refl aligned
    ∙ ap (λ (t : ℕ). if addr / 4096 % 1024 == 0 then 0xFFF000 else t)
        (untouched addr cleared aligned refl)
