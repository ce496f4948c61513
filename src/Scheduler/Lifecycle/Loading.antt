-- ===== src/Scheduler/Lifecycle/Loading.antt =====
-- Which program headers `LoadELF` keeps.
use literate_os.Common.{
  ℕ, zero, suc, ◌+◌, ◌*◌, ◌/◌, ◌≡◌, refl, ◌≢◌, some, List, [], ◌∷◌, ◌==◌, if◌then◌else◌, Bool-cases,
  inl, inr,
}
use literate_os.Common.Bits.{u32}
use literate_os.Common.Run.{ok}
use literate_os.Scheduler.{PageDirectoryPtr, ProgramHeader, Process, Scheduler}
use literate_os.Scheduler.Ring.{load-ok}
use literate_os.Scheduler.Lifecycle.{MemoryOps, ElfHeader, map_segment, load_segment, load_segments}

-- Memory operations that never fail.
pub record IsTotal {M : Type 0} (ops : MemoryOps M) : Type 0 where
  pub allocates : (m : M) → (r : ℕ × M) × (ops.allocate_physical_memory_block m ≡ ok r)
  pub maps : (phys virt n : ℕ) (m : M) → (m' : M) × (ops.map_virtual_pages phys virt n m ≡ ok m')
  pub maps_in :
      (phys virt n : ℕ) (dir : PageDirectoryPtr) (m : M)
      → (m' : M) × (ops.map_virtual_pages_in phys virt n dir m ≡ ok m')
  pub clears : (at n : ℕ) (m : M) → (m' : M) × (ops.clear_bytes at n m ≡ ok m')
  pub copies : (to from n : ℕ) (m : M) → (m' : M) × (ops.copy_bytes to from n m ≡ ok m')

-- The program headers at indices `i` to `i + left`, without those of size 0.
unfoldable pub kept_headers :
    (ℕ → ProgramHeader) → ElfHeader → (elf left i : ℕ) → List ProgramHeader
kept_headers header_at hdr elf zero i = []
kept_headers header_at hdr elf (suc left) i =
    let ph = header_at (u32 (elf + hdr.e_phoff + i * hdr.e_phentsize)) in
    let rest = kept_headers header_at hdr elf left (i + 1) in
    if ph.p_memsz == 0 then rest else ph ∷ rest

module _ {M : Type 0} (ops : MemoryOps M) (total : IsTotal ops) where
  map_segment_total :
      (left i vaddr : ℕ) (dir : PageDirectoryPtr) (m : M)
      → (m' : M) × (map_segment ops left i vaddr dir m ≡ ok m')
  unfolding map_segment
  map_segment_total zero i vaddr dir m = (m, refl)
  map_segment_total (suc left) i vaddr dir m =
      let (r, e) = total.allocates m in
      let (m₁, e₁) = total.maps r.0 (u32 (vaddr + i * 4096)) 1 r.1 in
      let (m₂, e₂) = total.maps_in r.0 (u32 (vaddr + i * 4096)) 1 dir m₁ in
      let (m', run) = map_segment_total left (i + 1) vaddr dir m₂ in (m', rw (e, e₁, e₂) run)

  module _ (s : Scheduler) (x : Process) (nz : s.current ≢ 0)
      (at : s.procs s.current ≡ some x) where
    load_segment_total :
        (elf : ℕ) (dir : PageDirectoryPtr) (ph : ProgramHeader) (m : M)
        → (m' : M) × (load_segment ops s elf dir ph m ≡ ok m')
    unfolding load_segment
    load_segment_total elf dir ph m =
        let (m₁, e₁) =
          map_segment_total (ph.p_memsz / 4096 + 2) 0 ph.p_vaddr dir
            (ops.load_kernel_page_directory m) in
        let (m₂, e₂) = total.clears ph.p_vaddr ph.p_memsz m₁ in
        let (m₃, e₃) = total.copies ph.p_vaddr (u32 (elf + ph.p_offset)) ph.p_filesz m₂ in
        (
          ops.switch_page_directory x.page_directory.page_directory_phys m₃,
          rw (e₁, e₂, e₃, load-ok s s.current x nz at),
        )

    -- The loop of `LoadELF` ends, and registers the program headers of the file in order, without
    -- those of size 0.
    pub load_segments-kept_headers :
        (header_at : ℕ → ProgramHeader) (hdr : ElfHeader) (elf : ℕ) (dir : PageDirectoryPtr)
        (left i : ℕ) (m : M)
        → (m' : M) × (load_segments ops header_at s elf dir hdr left i m
            ≡ ok (kept_headers header_at hdr elf left i, m'))
    unfolding load_segments kept_headers
    load_segments-kept_headers header_at hdr elf dir zero i m = (m, refl)
    load_segments-kept_headers header_at hdr elf dir (suc left) i m =
        let ph = header_at (u32 (elf + hdr.e_phoff + i * hdr.e_phentsize)) in
        elim (Bool-cases (ph.p_memsz == 0)) [
          | inl empty ↦
              let (m', run) = load_segments-kept_headers header_at hdr elf dir left (i + 1) m in
              (m', rw (empty, run))
          | inr filled ↦
              let (m₁, loaded) = load_segment_total elf dir ph m in
              let (m', run) = load_segments-kept_headers header_at hdr elf dir left (i + 1) m₁ in
              (m', rw (filled, loaded, run))
        ]
