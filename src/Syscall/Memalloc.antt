-- ===== src/Syscall/Memalloc.antt =====
-- `SysMemalloc`: virtual pages of the calling process, each with a block of its own.
use literate_os.Common.{
  ℕ, zero, suc, ◌+◌, ◌*◌, ◌%◌, ◌≤◌, ◌≡◌, ◌≢◌, refl, subst, ◌∙◌, true, false, none, some, ◌==◌, ◌||◌,
  if◌then◌else◌, arith,
}
use literate_os.Common.Bits.{u32}
use literate_os.Common.Run.{Run, ok, out_of_fuel, ◌>>=◌}
use literate_os.Memory.Physical.Alloc.{HasBitmap}
use literate_os.Memory.Paging.{Paging, page_size, map_page, map_virtual_pages_in}
use literate_os.Memory.Paging.Allocate.{allocate_virtual_pages}
use literate_os.Memory.Paging.Allocate.Laws.{allocate_virtual_pages-aligned}
use literate_os.Memory.Spaces.{Spaces, set_at, allocate_block}
use literate_os.Memory.Spaces.Backing.{
  Backed, Backed-nil, Backed-cons, allocate_block-total, at-set_at, map_virtual_pages_in-one,
  Step-bitmap,
}
use literate_os.Scheduler.{Process, load}
use literate_os.Scheduler.Ring.{load-ok}
use literate_os.Syscall.{Regs, Kernel}
use literate_os.Syscall.Files.{write_word}

-- The loop at page `i`, with `left` pages to go; `dir` is the process' page directory.
pub back_pages : (left i virt dir : ℕ) → Spaces → Run Spaces
back_pages zero i virt dir m = ok m
back_pages (suc left) i virt dir m = do
  (phys, m) ← allocate_block m
  let mapped = map_virtual_pages_in phys (u32 (virt + i * page_size)) 1 (m.at m.current) (m.at dir)
  back_pages left (i + 1) virt dir (set_at dir mapped.1 m)

pub sys_memalloc : Regs → Kernel → Spaces → Run (ℕ × Kernel × Spaces)
unfolding back_pages
sys_memalloc r k m =
    let allocated = (do
      x ← load k.sched k.sched.current
      let dir = x.page_directory.page_directory
      (virt, d) ← elim (allocate_virtual_pages r.ebx (m.at dir)) [
        | none ↦ out_of_fuel
        | some found ↦ ok found
      ]
      m ← back_pages r.ebx 0 virt dir (set_at dir d m)
      ok (0, record k { words = write_word k.words r.ecx virt }, m)) in
    if r.ebx == 0 || r.ecx == 0 then ok (1, k, m) else allocated

back_pages-Backed :
    (left i virt dir : ℕ) (m : Spaces)
    → virt % 4096 ≡ 0
    → left ≤ 1024
    → HasBitmap m.physical
    → (m' : Spaces) × (back_pages left i virt dir m ≡ ok m')
      × Backed virt left i m.physical (m.at dir) m'.physical (m'.at dir)
unfolding back_pages
back_pages-Backed zero i virt dir m aligned few len =
    (m, refl, Backed-nil virt i m.physical (m.at dir) len)
back_pages-Backed (suc left) i virt dir m aligned few len =
    let (phys, s, run, step) = allocate_block-total m len in
    let at = u32 (virt + i * page_size) in
    let d = (map_virtual_pages_in phys at 1 (m.at m.current) (m.at dir)).1 in
    let next : Spaces = set_at dir d (record m { physical = s }) in
    let (m', rest, backed) =
      back_pages-Backed left (i + 1) virt dir next aligned (omega arith) (Step-bitmap len step) in
    let (f, one) = map_virtual_pages_in-one phys at (m.at m.current) (m.at dir) in
    let backed' : Backed virt left (i + 1) s (map_page f phys at (m.at dir)) m'.physical
        (m'.at dir) =
      subst (λ t. Backed virt left (i + 1) s t m'.physical (m'.at dir))
        (at-set_at dir d (record m { physical = s }) ∙ one) backed in
    (m', rw run rest, Backed-cons f virt left i (m.at dir) phys aligned few len step backed')

-- `SysMemalloc` of 1 to 1024 pages with a place for the result, whose virtual pages the search in the current
-- process' directory finds, returns 0 and stores the address of the first page. Each page is translated to
-- its frame, less bit 31 of it. The frame is 0 only if every block is taken afterwards or block 0 was free
-- before, and otherwise a block that was free before and is taken now; pages with a block have different
-- ones. No block was freed, and every page whose index is none of theirs is translated as the search left it.
pub sys_memalloc_lem :
    (r : Regs) (k : Kernel) (m : Spaces) (x : Process) (virt : ℕ) (d : Paging)
    → r.ebx ≢ 0
    → r.ecx ≢ 0
    → r.ebx ≤ 1024
    → k.sched.current ≢ 0
    → k.sched.procs k.sched.current ≡ some x
    → HasBitmap m.physical
    → allocate_virtual_pages r.ebx (m.at x.page_directory.page_directory) ≡ some (virt, d)
    → (k' : Kernel) × (m' : Spaces) × (sys_memalloc r k m ≡ ok (0, k', m'))
      × (k'.words r.ecx ≡ virt)
      × Backed virt r.ebx 0 m.physical d m'.physical (m'.at x.page_directory.page_directory)
unfolding sys_memalloc
sys_memalloc_lem r k m x virt d nb nc few cnz cat len found =
    let dir = x.page_directory.page_directory in
    let valid : (r.ebx == 0 || r.ecx == 0) ≡ false = ground arith in
    let aligned = allocate_virtual_pages-aligned r.ebx virt (m.at dir) found in
    let (m', run, backed) = back_pages-Backed r.ebx 0 virt dir (set_at dir d m) aligned few len in
    let here : (r.ecx == r.ecx) ≡ true = ground arith in
    (
      record k { words = write_word k.words r.ecx virt },
      m',
      rw (valid, load-ok k.sched k.sched.current x cnz cat, found, run),
      rw here,
      subst (λ t. Backed virt r.ebx 0 m.physical t m'.physical (m'.at dir)) (at-set_at dir d m)
          backed,
    )
