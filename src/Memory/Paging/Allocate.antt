-- ===== src/Memory/Paging/Allocate.antt =====
-- `AllocateVirtualPages` and `KernelAllocateVirtualPages` of Kernel/src/arch/x86/paging.cpp: the search
-- for a run of free pages.
--
-- The pages are visited table by table, and numbered across the tables. `none` is the empty loop
-- behind the search, which never ends.
pub mod FreeRuns
pub mod Laws
pub mod InOrder
use literate_os.Common.{
  ℕ, zero, suc, ◌+◌, ◌-◌, ◌*◌, ◌/◌, ◌%◌, bit_and, bit_or, Option, none, some, ◌==◌, leb,
  if◌then◌else◌,
}
use literate_os.Common.Bits.{u32, add32}
use literate_os.Memory.Paging.{
  Paging, page_size, page_present, page_writable, page_directory_index, page_table_index, set_flags,
  set_page_frame, set_entry, set_page, table_phys,
}

abbrev pub pages_per_table : ℕ
pages_per_table = 1024

abbrev pub all_pages : ℕ
all_pages = 1024 * 1024

-- The page from which the run is counted, and the free pages of it that have been seen.
pub record Search : Type 0 where
  pub table : ℕ
  pub offset : ℕ
  pub counter : ℕ

abbrev pub is_present : Paging → ℕ → ℕ
is_present d n = bit_and (d.tables (n / pages_per_table) (n % pages_per_table)) page_present

-- The two loops at page `n`, with `left` pages to go. A present page becomes the start of the run.
unfoldable pub find_run : (left n amount : ℕ) → Search → Paging → Option Search
find_run zero n amount s d = none
find_run (suc left) n amount s d =
    let restart : Search = record {
      table = n / pages_per_table;
      offset = n % pages_per_table;
      counter = 0;
    } in
    let counted : Search = record s { counter = s.counter + 1 } in
    let taken = find_run left (n + 1) amount restart d in
    let more = find_run left (n + 1) amount counted d in
    if is_present d n == 0
    then (if leb amount (s.counter + 1) then some counted else more)
    else taken

-- One page of a run, with its directory entry.
abbrev pub mark_page : (table offset : ℕ) → Paging → Paging
mark_page table offset d =
    let page = set_flags (d.tables table offset) (bit_or page_writable page_present) in
    let entry = set_flags (d.directory table) (bit_or page_present page_writable) in
    record d {
      tables = set_page d.tables table offset page;
      directory = set_entry d.directory table (set_page_frame entry (table_phys d table));
    }

-- The `while` loop that marks the pages of a run.
unfoldable pub mark_run : (counter table offset : ℕ) → Paging → Paging
mark_run zero table offset d = d
mark_run (suc counter) table offset d =
    let same = mark_run counter table (offset + 1) (mark_page table offset d) in
    let next = mark_run counter (table + 1) 0 (mark_page table offset d) in
    if leb pages_per_table (offset + 1) then next else same

-- The search of `AllocateVirtualPages`: the pages of the first table below the start are visited, too.
unfoldable pub run_of : (amount : ℕ) → Paging → Option Search
unfolding find_run
run_of amount d =
    let first = page_directory_index 0x40000 in
    let start : Search = record { table = first; offset = page_table_index 0x40000; counter = 0 } in
    find_run (all_pages - first * pages_per_table) (first * pages_per_table) (add32 amount 2) start
      d

unfoldable pub allocate_virtual_pages : (amount : ℕ) → Paging → Option (ℕ × Paging)
unfolding mark_run
allocate_virtual_pages amount d = elim (run_of amount d) [
  | none ↦ none
  | some s ↦ some (
    u32 ((s.table * pages_per_table + s.offset) * page_size),
    mark_run s.counter s.table s.offset d,
  )
]

-- The search of `KernelAllocateVirtualPages`.
unfoldable pub kernel_run_of : (amount : ℕ) → Paging → Option Search
unfolding find_run
kernel_run_of amount d =
    let first = page_directory_index 0xC0000000 in
    let start : Search = record { table = first; offset = 0; counter = 0 } in
    find_run (all_pages - first * pages_per_table) (first * pages_per_table) (add32 amount 1) start
      d

-- The address is that of the page behind the start of the run.
unfoldable pub kernel_allocate_virtual_pages : (amount : ℕ) → Paging → Option (ℕ × Paging)
unfolding mark_run
kernel_allocate_virtual_pages amount d = elim (kernel_run_of amount d) [
  | none ↦ none
  | some s ↦ some (
    u32 ((s.table * pages_per_table + s.offset) * page_size + page_size),
    mark_run s.counter s.table s.offset d,
  )
]
