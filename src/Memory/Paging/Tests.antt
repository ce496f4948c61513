-- ===== src/Memory/Paging/Tests.antt =====
-- The theorems on page tables at concrete addresses.
use literate_os.Common.{ℕ, ◌*◌, ◌/◌, ◌%◌, ◌^◌, ◌≡◌, refl, ◌==◌, if◌then◌else◌, arith}
use literate_os.Memory.Paging.{Paging, page_directory_index, virtual_to_physical_address, map_page}
use literate_os.Memory.Paging.{page_size}
use literate_os.Common.{some, ◌≤◌, ◌<◌, ◌+◌}
use literate_os.Common.Bits.{u32}
use literate_os.Memory.Paging.Allocate.{
  is_present, find_run, mark_run, kernel_run_of, kernel_allocate_virtual_pages,
}
use literate_os.Memory.Paging.Allocate.Laws.{kernel_allocate_virtual_pages_lem}
use literate_os.Memory.Paging.Mapping.{virtual_to_physical-map_page}

-- Tables in which no page is mapped.
abbrev unmapped : Paging
unmapped = record { directory = λ i. 0; tables = λ i j. 0; tables_at = 0xC0100000 }

abbrev frames : ℕ → ℕ
frames i = i * 4096

kernel_start : page_directory_index 0xC0000000 ≡ 0
unfolding page_directory_index
kernel_start = refl

-- A page that was mapped at 0xC0003000 is found at 0x00403000, too.
virtual_to_physical-map_page_example :
    virtual_to_physical_address 0x00403000 (map_page frames 0x00A00000 0xC0003000 unmapped) ≡ (
      if 0x00403000 / 4096 % 1024 == 0xC0003000 / 4096 % 1024
      then 0x00A00000 % 2 ^ 31
      else virtual_to_physical_address 0x00403000 unmapped)
virtual_to_physical-map_page_example =
    virtual_to_physical-map_page frames 0x00A00000 0xC0003000 0x00403000 unmapped (omega arith) refl
      refl refl

abbrev one_page : Paging
one_page = mark_run 2 0 0 unmapped

one_page_allocated : kernel_allocate_virtual_pages 1 unmapped ≡ some (4096, one_page)
unfolding kernel_allocate_virtual_pages kernel_run_of page_directory_index find_run mark_run
one_page_allocated = refl

kernel_allocate_virtual_pages_lem_example :
    (first : ℕ) × (4096 ≡ u32 (first * page_size))
    × ((q : ℕ) → first ≤ q → q < first + 1 → is_present unmapped q ≡ 0)
    × ((q : ℕ) → first ≤ q → q < first + 1 → is_present one_page q ≡ 1)
    × ((q : ℕ) → is_present unmapped q ≡ 1 → is_present one_page q ≡ 1)
kernel_allocate_virtual_pages_lem_example =
    kernel_allocate_virtual_pages_lem 1 4096 unmapped (omega arith) one_page_allocated
