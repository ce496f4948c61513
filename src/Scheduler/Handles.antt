-- ===== src/Scheduler/Handles.antt =====
-- Handles: `RegisterHandle` and `FindHandle`.
use literate_os.Common.{
  ◌≡◌, refl, ◌≢◌, some, List, [], ◌∷◌, ◌++◌, ◌==◌, true, arith, Bool-cases, inl, inr,
}
use literate_os.Common.Bits.{u32}
use literate_os.Common.Run.{ok}
use literate_os.Scheduler.{
  Ptr, Process, HandleIndex, Scheduler, new_index, register_handle, find_handle, find_handle_from,
}
use literate_os.Scheduler.Ring.{load-ok}

-- The scheduler with one more handle, of the current process `x`.
abbrev pub with_handle : Ptr → Process → Scheduler → Scheduler
with_handle handle x s = record s {
  handles = s.handles ++ new_index (u32 x.pid) s.current handle ∷ [];
}

pub register_handle-ok :
    (handle : Ptr) (s : Scheduler) (x : Process)
    → s.current ≢ 0
    → s.procs s.current ≡ some x
    → register_handle handle s ≡ ok (with_handle handle x s)
unfolding register_handle
register_handle-ok handle s x nz at = rw (load-ok s s.current x nz at)

find_handle_from-append :
    (hs : List HandleIndex) (handle : Ptr) (new : HandleIndex)
    → handle ≢ 0
    → new.handle ≡ handle
    → (find_handle_from (hs ++ new ∷ []) handle).handle ≡ handle
unfolding find_handle_from
find_handle_from-append [] handle new nz e =
    let hit : (new.handle == handle) ≡ true = ground arith in rw hit e
find_handle_from-append (h ∷ hs) handle new nz e = elim (Bool-cases (h.handle == handle)) [
  | inl hit ↦ rw hit (ground arith)
  | inr miss ↦ rw miss (find_handle_from-append hs handle new nz e)
]

-- A registered handle is found.
pub find_handle-with_handle :
    (handle : Ptr) (s : Scheduler) (x : Process)
    → handle ≢ 0
    → (find_handle (with_handle handle x s) handle).handle ≡ handle
unfolding find_handle
find_handle-with_handle handle s x nz = find_handle_from-append s.handles handle _ nz refl
