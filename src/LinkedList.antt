-- ===== src/LinkedList.antt =====
-- The list template: Kernel/include/list.h.
--
-- Nodes live at addresses, and 0 is NULL. `kmalloc` does not clear memory: `add_back` is given the node
-- that stands at the new address before it, of which it sets the object.
pub mod Chain
pub mod Walk
pub mod Operations
pub mod Access
pub mod Calls
pub mod Sequence
pub mod Refine
pub mod Release
mod Tests
use literate_os.Common.{
  ℕ, zero, suc, ◌+◌, Bool, true, false, Option, none, some, ◌==◌, leb, ◌||◌, ◌&&◌, if◌then◌else◌,
}
use literate_os.Common.Bits.{add32}
use literate_os.Common.Run.{Run, ok, fault, out_of_fuel, ◌>>=◌, or_fault, write}

abbrev pub Ptr : Type 0
Ptr = ℕ

-- `ListNode<T>`.
pub record Node (T : Type 0) : Type 0 where
  pub next : Ptr
  pub prev : Ptr
  pub obj : T

-- `List<T>`, with the memory of its nodes. The lock macros of the header are empty.
pub record LinkedList (T : Type 0) : Type 0 where
  pub heap : Ptr → Option (Node T)
  pub front : Ptr
  pub back : Ptr
  pub num : ℕ

-- Constructor, on memory as it is.
unfoldable pub empty : {T : Type 0} → (Ptr → Option (Node T)) → LinkedList T
empty heap = record { heap = heap; front = 0; back = 0; num = 0 }

abbrev pub deref : {T : Type 0} → (Ptr → Option (Node T)) → Ptr → Run (Node T)
deref heap p = if p == 0 then fault else or_fault (heap p)

pub add_back : {T : Type 0} (fresh : Ptr) (stale : Node T) → T → LinkedList T → Run (LinkedList T)
add_back fresh stale obj s =
    let node = record stale { obj = obj } in
    let first = record s {
      heap = write s.heap fresh (some node);
      front = fresh;
      back = fresh;
      num = add32 s.num 1;
    } in
    let later = (do
      last ← deref (write s.heap fresh (some node)) s.back
      let linked =
          write (write s.heap fresh (some node)) s.back (some (record last { next = fresh }))
      new ← deref linked fresh
      ok (record s {
        heap = write linked fresh (some (record new { prev = s.back }));
        back = fresh;
        num = add32 s.num 1;
      })) in
    if fresh == 0 then fault else if s.front == 0 then ok first else later

-- `add_lock`, which adds at the front; its node is cleared.
pub add_front : {T : Type 0} (fresh : Ptr) → T → LinkedList T → Run (LinkedList T)
add_front fresh obj s =
    let cleared : Node _ = record { next = 0; prev = 0; obj = obj } in
    let first = record s {
      heap = write s.heap fresh (some cleared);
      front = fresh;
      back = fresh;
      num = add32 s.num 1;
    } in
    let later = (do
      old ← deref (write s.heap fresh (some cleared)) s.front
      let linked =
          write (write s.heap fresh (some cleared)) s.front (some (record old { prev = fresh }))
      new ← deref linked fresh
      ok (record s {
        heap = write linked fresh (some (record new { next = s.front }));
        front = fresh;
        num = add32 s.num 1;
      })) in
    if fresh == 0 then fault else if s.back == 0 then ok first else later

-- The loop of `get_at` at `i`, with `left` rounds to the position.
pub walk : {T : Type 0} → (Ptr → Option (Node T)) → (num left i : ℕ) → Ptr → Run Ptr
walk heap num zero i p = ok p
walk heap num (suc left) i p =
    let onward = (do
      node ← deref heap p
      let further = walk heap num left (i + 1) node.next
      if node.next == 0 then ok p else further) in
    if leb num i then ok p else onward

pub get_at : {T : Type 0} (zeroed : T) → (pos : ℕ) → LinkedList T → Run T
unfolding walk
get_at zeroed pos s =
    let found = (do p ← walk s.heap s.num pos 0 s.front; node ← deref s.heap p; ok node.obj) in
    if s.num == 0 || leb s.num pos || s.front == 0 then ok zeroed else found

-- The loop of `replace_at`, which follows the links without a test.
pub follow : {T : Type 0} → (Ptr → Option (Node T)) → (left : ℕ) → Ptr → Run Ptr
follow heap zero p = ok p
follow heap (suc left) p = do node ← deref heap p; follow heap left node.next

pub replace_at : {T : Type 0} (pos : ℕ) → T → LinkedList T → Run (LinkedList T)
unfolding follow
replace_at pos obj s =
    let replaced = (do
      p ← follow s.heap pos s.front
      let stored = (do
        node ← deref s.heap p
        ok (record s { heap = write s.heap p (some (record node { obj = obj })) }))
      if p == 0 then ok s else stored) in
    if leb s.num pos then ok s else replaced

pub get_length : {T : Type 0} → LinkedList T → ℕ
get_length s = s.num

-- In range there is no `return`.
pub remove_at : {T : Type 0} (zeroed : T) → (pos : ℕ) → LinkedList T → Run T
remove_at zeroed pos s = if s.num == 0 || leb s.num pos || s.front == 0 then ok zeroed else fault

pub get_front : {T : Type 0} → LinkedList T → Run T
get_front s = do node ← deref s.heap s.front; ok node.obj

pub get_back : {T : Type 0} → LinkedList T → Run T
get_back s = do node ← deref s.heap s.back; ok node.obj

-- The loop of `clear`, which stops in front of a node without a successor.
pub free_nodes :
    {T : Type 0} (fuel : ℕ) → Ptr → (Ptr → Option (Node T)) → Run (Ptr → Option (Node T))
free_nodes zero p heap = out_of_fuel
free_nodes (suc fuel) p heap =
    let freed = (do
      node ← deref heap p
      let rest = free_nodes fuel node.next (write heap p none)
      if node.next == 0 then ok heap else rest) in
    if p == 0 then ok heap else freed

pub clear : {T : Type 0} (fuel : ℕ) → LinkedList T → Run (LinkedList T)
unfolding free_nodes empty
clear fuel s = do heap ← free_nodes fuel s.front s.heap; ok (empty heap)

-- The loop of the destructor: `node` stays the front.
pub destroy : {T : Type 0} (fuel : ℕ) → LinkedList T → Run (LinkedList T)
destroy zero s = out_of_fuel
destroy (suc fuel) s = do
  node ← deref s.heap s.front
  let rest = destroy fuel (record s { heap = write s.heap s.front none })
  if node.next == 0 then ok s else rest
