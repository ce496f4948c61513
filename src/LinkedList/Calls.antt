-- ===== src/LinkedList/Calls.antt =====
-- Calls of a list in memory, and what each of them returns.
use literate_os.Common.{ℕ, Bool, true, false, List, [], ◌∷◌, ◌==◌, ◌||◌, ◌&&◌, not}
use literate_os.Common.Run.{Run, ok, ◌>>=◌}
use literate_os.LinkedList.{
  Ptr, Node, LinkedList, add_back, add_front, get_at, replace_at, get_length, remove_at, get_front,
  get_back,
}

-- An addition comes with the address that `kmalloc` gives it, and with what is there.
pub data Call (T : Type 0) : Type 0 where
  push_back : (fresh : Ptr) → (stale : Node T) → T → Call T
  push_front : (fresh : Ptr) → T → Call T
  read : (pos : ℕ) → Call T
  replace : (pos : ℕ) → T → Call T
  count : Call T
  remove : (pos : ℕ) → Call T
  front_object : Call T
  back_object : Call T

pub data Answer (T : Type 0) : Type 0 where
  done : Answer T
  object : T → Answer T
  number : ℕ → Answer T

-- `step` and `run` for the list in memory; `zeroed` is the object of zero bytes.
unfoldable pub step :
    {T : Type 0} (zeroed : T) → Call T → LinkedList T → Run (Answer T × LinkedList T)
step zeroed (push_back fresh stale x) s = do t ← add_back fresh stale x s; ok (done, t)
step zeroed (push_front fresh x) s = do t ← add_front fresh x s; ok (done, t)
step zeroed (read pos) s = do x ← get_at zeroed pos s; ok (object x, s)
step zeroed (replace pos x) s = do t ← replace_at pos x s; ok (done, t)
step zeroed count s = ok (number (get_length s), s)
step zeroed (remove pos) s = do x ← remove_at zeroed pos s; ok (object x, s)
step zeroed front_object s = do x ← get_front s; ok (object x, s)
step zeroed back_object s = do x ← get_back s; ok (object x, s)

unfoldable pub run :
    {T : Type 0} (zeroed : T) → List (Call T) → LinkedList T → Run (List (Answer T))
unfolding step
run zeroed [] s = ok []
run zeroed (c ∷ calls) s = do
  next ← step zeroed c s
  answers ← run zeroed calls next.1
  ok (next.0 ∷ answers)

-- The addresses are nonzero, and none of them is in use: neither one of `used` nor one of an earlier call.
abbrev pub elem : Ptr → List Ptr → Bool
elem a [] = false
elem a (p ∷ ps) = (a == p) || elem a ps

abbrev pub is_new : Ptr → List Ptr → Bool
is_new a used = not (a == 0) && not (elem a used)

abbrev pub allocates : {T : Type 0} → List Ptr → List (Call T) → Bool
allocates used [] = true
allocates used (push_back fresh stale x ∷ calls) =
    is_new fresh used && allocates (fresh ∷ used) calls
allocates used (push_front fresh x ∷ calls) = is_new fresh used && allocates (fresh ∷ used) calls
allocates used (read pos ∷ calls) = allocates used calls
allocates used (replace pos x ∷ calls) = allocates used calls
allocates used (count ∷ calls) = allocates used calls
allocates used (remove pos ∷ calls) = allocates used calls
allocates used (front_object ∷ calls) = allocates used calls
allocates used (back_object ∷ calls) = allocates used calls
