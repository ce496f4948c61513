-- ===== src/Memory/Spaces/Tests.antt =====
-- A new address space of a kernel with nothing mapped.
use literate_os.Common.{ℕ, ◌<◌, ◌≡◌, refl, some, [], ◌∷◌, arith}
use literate_os.Common.Run.{ok}
use literate_os.Memory.Physical.{
  allocate_physical_memory_block, get_first_free_memory_block, first_free_from, free_bit, bit_set,
}
use literate_os.Memory.Paging.{
  Paging, page_directory_index, page_table_index, map_virtual_pages, map_pages, map_page, set_flags,
  set_page_frame,
}
use literate_os.Memory.Paging.Allocate.{
  kernel_allocate_virtual_pages, kernel_run_of, find_run, mark_run,
}
use literate_os.Memory.Spaces.{Spaces, set_at, allocate_block, map_pages_at, create_address_space}
use literate_os.Memory.Spaces.Sharing.{shared_entry, create_address_space-shares}
use literate_os.Scheduler.{PageDirectoryPtr}
use literate_os.Memory.Physical.{all_ones}
use literate_os.Memory.Physical.Init.{length-all_ones}
use literate_os.Memory.Physical.Alloc.{HasBitmap}

abbrev pub unmapped : Paging
unmapped = record { directory = λ i. 0; tables = λ i j. 0; tables_at = 0xC0100000 }

abbrev pub start : Spaces
start = record {
  physical = record { bitmap = 0xfffffff9 ∷ []; used = 0; max_blocks = 8192 };
  at = λ a. unmapped;
  kernel = 0xC0200000;
  current = 0xC0200000;
  cr3 = 0;
}

abbrev pub one_page : Paging
one_page = mark_run 2 0 0 unmapped

pub one_page_allocated : kernel_allocate_virtual_pages 1 unmapped ≡ some (4096, one_page)
unfolding kernel_allocate_virtual_pages kernel_run_of page_directory_index find_run mark_run
one_page_allocated = refl

-- With the bitmap that the source has, of which all blocks but 1 and 2 are taken.
abbrev pub plain : Spaces
plain = record start {
  physical = record { bitmap = 0xfffffff9 ∷ all_ones 32767; used = 0; max_blocks = 8192 };
}

pub plain-HasBitmap : HasBitmap plain.physical
plain-HasBitmap = omega (arith, length-all_ones 32767)

abbrev with_block : Spaces
with_block = record (set_at 0xC0200000 one_page start) {
  physical = record { bitmap = 0xfffffffb ∷ []; used = 1; max_blocks = 8192 };
}

block_taken : allocate_block (set_at 0xC0200000 one_page start) ≡ ok (4096, with_block)
unfolding allocate_block allocate_physical_memory_block get_first_free_memory_block first_free_from
    free_bit bit_set
block_taken = refl

abbrev directory_mapped : Paging
directory_mapped = (map_pages_at 4096 4096 1 with_block).at 0xC0200000

no_page_allocated :
    kernel_allocate_virtual_pages 0 directory_mapped ≡ some (8192, mark_run 1 0 1 directory_mapped)
unfolding kernel_allocate_virtual_pages kernel_run_of page_directory_index page_table_index find_run
    mark_run map_pages_at map_virtual_pages map_pages map_page set_flags set_page_frame
no_page_allocated = refl

create_address_space-shares_example :
    (ptr : PageDirectoryPtr) × (m' : Spaces) × (create_address_space start ≡ ok (ptr, m'))
    × ((i : ℕ)
        → i < 1024
        → (m'.at ptr.page_directory).directory i ≡ shared_entry directory_mapped 0 i)
create_address_space-shares_example =
    create_address_space-shares start with_block 4096 4096 8192 one_page
      (mark_run 1 0 1 directory_mapped) one_page_allocated block_taken no_page_allocated
