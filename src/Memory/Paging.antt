-- ===== src/Memory/Paging.antt =====
-- Page tables: Kernel/src/arch/x86/paging.cpp and Kernel/include/arch/x86/paging.h.
--
-- A page table entry is a 32-bit word. An address has its table by `PAGE_DIRECTORY_INDEX` and its
-- entry there by `PAGE_TABLE_INDEX`, as the header defines them.
pub mod Frames
pub mod Mapping
pub mod Allocate
pub mod Fault
mod Tests
use literate_os.Common.{
  ℕ, zero, suc, ◌+◌, ◌-◌, ◌*◌, ◌/◌, ◌%◌, ◌^◌, bit_and, bit_or, Bool, true, false, ◌==◌, ◌&&◌,
  if◌then◌else◌,
}
use literate_os.Common.Bits.{u32, add32, sub32, not32, ◌>>>◌}

abbrev pub page_size : ℕ
page_size = 4096

abbrev pub page_present : ℕ
page_present = 1

abbrev pub page_writable : ℕ
page_writable = 2

-- `PAGE_FRAME` and `PDE_FRAME`.
abbrev pub page_frame : ℕ
page_frame = 0x7FFFF000

abbrev pub kernel_virtual_base : ℕ
kernel_virtual_base = 0xC0000000

unfoldable pub page_directory_index : ℕ → ℕ
page_directory_index x = bit_and (x >>> 2) 0x3ff

unfoldable pub page_table_index : ℕ → ℕ
page_table_index x = bit_and (x >>> 12) 0x3ff

-- `SetPageFrame` and `setPDEFrame`.
unfoldable pub set_page_frame : ℕ → ℕ → ℕ
set_page_frame p addr = bit_or (bit_and p (not32 page_frame)) addr

pub get_page_frame : ℕ → ℕ
get_page_frame p = bit_and p page_frame >>> 12

unfoldable pub set_flags : ℕ → ℕ → ℕ
set_flags p flags = bit_or p flags

unfoldable pub clear_flags : ℕ → ℕ → ℕ
clear_flags p flags = bit_and p (not32 flags)

-- A page directory with its tables; `tables_at` is the virtual address of the first table.
pub record Paging : Type 0 where
  pub directory : ℕ → ℕ
  pub tables : ℕ → ℕ → ℕ
  pub tables_at : ℕ

-- Writes of one directory entry and of one table entry.
abbrev pub set_entry : (ℕ → ℕ) → ℕ → ℕ → ℕ → ℕ
set_entry d i v a = if a == i then v else d a

abbrev pub set_page : (ℕ → ℕ → ℕ) → ℕ → ℕ → ℕ → ℕ → ℕ → ℕ
set_page t i j v a b = if a == i && b == j then v else t a b

-- `(uint32_t)&(tables[i]) - 0xC0000000`.
abbrev pub table_phys : Paging → ℕ → ℕ
table_phys d i = sub32 (u32 (d.tables_at + i * page_size)) kernel_virtual_base

-- `get_page`, then its value.
abbrev pub page_at : Paging → ℕ → ℕ
page_at d addr = d.tables (page_directory_index addr) (page_table_index addr)

pub virtual_to_physical_address : ℕ → Paging → ℕ
virtual_to_physical_address addr d = u32 (get_page_frame (page_at d addr) * 2 ^ 12)

-- The body of the loop of `MapVirtualPages`. `table_frame` is the frame of a table by its index.
unfoldable pub map_page : (ℕ → ℕ) → (phys virt : ℕ) → Paging → Paging
map_page table_frame phys virt d =
    let i = page_directory_index virt in
    let j = page_table_index virt in
    let page = set_page_frame (set_flags (d.tables i j) (bit_or page_present page_writable)) phys in
    let entry = set_flags (d.directory i) (bit_or page_present page_writable) in
    record d {
      directory = set_entry d.directory i (set_page_frame entry (table_frame i));
      tables = set_page d.tables i j page;
    }

unfoldable pub map_pages : (ℕ → ℕ) → (phys virt amount : ℕ) → Paging → Paging
map_pages table_frame phys virt zero d = d
map_pages table_frame phys virt (suc amount) d =
    map_pages table_frame (add32 phys page_size) (add32 virt page_size) amount
      (map_page table_frame phys virt d)

-- `MapVirtualPages` in the current directory.
unfoldable pub map_virtual_pages : (phys virt amount : ℕ) → Paging → Bool × Paging
map_virtual_pages phys virt amount d =
    if amount == 0 then (false, d) else (true, map_pages (table_phys d) phys virt amount d)

-- `MapVirtualPages` in a given directory: the frames of its tables are looked up in the current one.
unfoldable pub map_virtual_pages_in : (phys virt amount : ℕ) → (current d : Paging) → Bool × Paging
map_virtual_pages_in phys virt amount current d =
    let frame =
      λ (i : ℕ). virtual_to_physical_address (u32 (d.tables_at + i * page_size)) current in
    if amount == 0 then (false, d) else (true, map_pages frame phys virt amount d)

-- The loop of `FreeVirtualPages` at round `i`; the address is `virt * i * PAGE_SIZE`, as written.
pub free_pages : (left i virt : ℕ) → Paging → Paging
free_pages zero i virt d = d
free_pages (suc left) i virt d =
    let at = u32 (virt * i * page_size) in
    let page = clear_flags (page_at d at) (bit_or page_present page_writable) in
    free_pages left (i + 1) virt
      (record d { tables = set_page d.tables (page_directory_index at) (page_table_index at) page })

pub free_virtual_pages : (virt amount : ℕ) → Paging → Paging
free_virtual_pages virt amount d = free_pages amount 0 virt d

-- The body of the second loop of `InitializeVirtualMemory`: `virt` is 0 and is never advanced.
pub identity_page : (frame : ℕ) → Paging → Paging
identity_page frame d =
    let page = set_page_frame (set_flags 0 (bit_or page_present page_writable)) frame in
    let i = page_directory_index 0 in
    let entry = set_flags (set_flags (d.directory i) page_present) page_writable in
    record d {
      directory = set_entry d.directory i (set_page_frame entry (table_phys d i));
      tables = set_page d.tables i (page_table_index 0) page;
    }

pub identity_map : (left frame : ℕ) → Paging → Paging
identity_map zero frame d = d
identity_map (suc left) frame d =
    identity_map left (u32 (frame + page_size)) (identity_page frame d)

-- The first loop clears all tables and marks every directory entry writable.
pub initialize_virtual_memory : (tables_at : ℕ) → Paging
initialize_virtual_memory tables_at =
    identity_map 4096 0
      (record { directory = λ i. page_writable; tables = λ i j. 0; tables_at = tables_at })
