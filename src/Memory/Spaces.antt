-- ===== src/Memory/Spaces.antt =====
-- Address spaces: the part of Kernel/src/arch/x86/paging.cpp that works on several page directories, with
-- the physical allocator.
--
-- A page directory is known by the virtual address of its entries. `none` from the allocator is an access
-- outside its bitmap; the search for free pages without a result is the empty loop that never ends.
pub mod Backing
pub mod Sharing
pub mod Tests
use literate_os.Common.{
  ℕ, zero, suc, ◌+◌, ◌-◌, ◌*◌, ◌/◌, ◌%◌, ◌^◌, bit_or, Bool, Option, none, some, ◌==◌, leb, ltb,
  if◌then◌else◌,
}
use literate_os.Common.Bits.{u32, add32, sub32}
use literate_os.Common.Run.{Run, ok, fault, out_of_fuel, ◌>>=◌, or_fault}
use literate_os.Memory.Physical.{Physical, allocate_physical_memory_block}
use literate_os.Memory.Paging.{
  Paging, page_size, page_present, page_writable, kernel_virtual_base, page_directory_index,
  set_flags, set_page_frame, set_entry, table_phys, virtual_to_physical_address, map_virtual_pages,
  map_virtual_pages_in,
}
use literate_os.Memory.Paging.Allocate.{kernel_allocate_virtual_pages}
use literate_os.Scheduler.{PageDirectoryPtr}

-- `at` are the page directories, `cr3` is the register.
pub record Spaces : Type 0 where
  pub physical : Physical
  pub at : ℕ → Paging
  pub kernel : ℕ
  pub current : ℕ
  pub cr3 : ℕ

abbrev pub set_at : ℕ → Paging → Spaces → Spaces
set_at p d m = record m { at = λ a. if a == p then d else m.at a }

pub switch_page_directory : ℕ → Spaces → Spaces
switch_page_directory dir m = record m { cr3 = dir }

pub get_kernel_page_directory : Spaces → ℕ
get_kernel_page_directory m = sub32 m.kernel kernel_virtual_base

pub load_kernel_page_directory : Spaces → Spaces
unfolding switch_page_directory get_kernel_page_directory
load_kernel_page_directory m = switch_page_directory (get_kernel_page_directory m) m

-- These two do not switch.
pub set_current_page_directory : PageDirectoryPtr → Spaces → Spaces
set_current_page_directory dir m = record m { current = dir.page_directory }

pub set_current_page_directory_to_kernel : Spaces → Spaces
set_current_page_directory_to_kernel m = record m { current = m.kernel }

-- The functions of the allocator and of the page tables, on the address spaces.
pub allocate_block : Spaces → Run (ℕ × Spaces)
allocate_block m = do
  (addr, s) ← or_fault (allocate_physical_memory_block m.physical)
  ok (addr, record m { physical = s })

pub allocate_kernel_pages : ℕ → Spaces → Run (ℕ × Spaces)
allocate_kernel_pages amount m = elim (kernel_allocate_virtual_pages amount (m.at m.kernel)) [
  | none ↦ out_of_fuel
  | some (addr, d) ↦ ok (addr, set_at m.kernel d m)
]

unfoldable pub map_pages_at : (phys virt amount : ℕ) → Spaces → Spaces
map_pages_at phys virt amount m =
    set_at m.current (map_virtual_pages phys virt amount (m.at m.current)).1 m

pub translate_address : ℕ → Spaces → ℕ
translate_address addr m = virtual_to_physical_address addr (m.at m.current)

-- The first loop of `CreateAddressSpace`: the entries from `i` on point to the tables of the kernel.
pub share_tables : (left i : ℕ) (kernel d : Paging) → Paging
share_tables zero i kernel d = d
share_tables (suc left) i kernel d =
    let entry = set_flags (d.directory i) (bit_or page_present page_writable) in
    share_tables left (i + 1) kernel (record d {
      directory = set_entry d.directory i (set_page_frame entry (table_phys kernel i));
    })

-- The second: each table of the user's part has a block.
pub map_tables : (left i tables_at : ℕ) → Spaces → Run Spaces
unfolding allocate_block map_pages_at
map_tables zero i tables_at m = ok m
map_tables (suc left) i tables_at m = do
  (phys, m) ← allocate_block m
  map_tables left (i + 1) tables_at (map_pages_at phys (u32 (tables_at + i * page_size)) 1 m)

abbrev pub pde_user : ℕ
pde_user = 4

-- The third marks the entries of the user's part.
pub open_entries : (left i : ℕ) → Paging → Paging
open_entries zero i d = d
open_entries (suc left) i d =
    let flags = bit_or (bit_or page_present page_writable) pde_user in
    open_entries left (i + 1)
      (record d { directory = set_entry d.directory i (set_flags (d.directory i) flags) })

abbrev pub tables_per_dir : ℕ
tables_per_dir = 1024

-- `first` is the index of the kernel's part. The new directory is cleared, and of its tables the first `first`,
-- which is 0: the others keep what was there.
unfoldable pub create_address_space : Spaces → Run (PageDirectoryPtr × Spaces)
create_address_space m = do
  let first = page_directory_index 0xC0000000
  (directory, m) ← allocate_kernel_pages 1 m
  (phys, m) ← allocate_block m
  let m = map_pages_at phys directory 1 m
  let cleared : Paging = record {
    directory = λ i. 0;
    tables = λ i j. if ltb i first then 0 else (m.at directory).tables i j;
    tables_at = 0;
  }
  let shared = share_tables (tables_per_dir - first) first (m.at m.kernel) cleared
  (tables_at, m) ← allocate_kernel_pages ((page_size * first + 1) / page_size) m
  m ← map_tables first 0 tables_at m
  let opened = open_entries first 0 (record shared { tables_at = tables_at })
  let ptr : PageDirectoryPtr = record {
    page_directory = directory;
    page_directory_phys = phys;
    page_tables = tables_at;
  }
  ok (ptr, set_at directory opened m)
