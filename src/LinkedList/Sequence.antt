-- ===== src/LinkedList/Sequence.antt =====
-- What the list template promises: the same calls on a plain sequence of objects.
use literate_os.Common.{List, [], ◌∷◌, ◌++◌, length, get_or, set, leb, if◌then◌else◌}
use literate_os.Common.Run.{Run, ok, fault, ◌>>=◌}
use literate_os.LinkedList.Calls.{
  Call, push_back, push_front, read, replace, count, remove, front_object, back_object, Answer,
  done, object, number,
}

module _ {T : Type 0} where
  abbrev pub first : List T → Run T
  first [] = fault
  first (x ∷ xs) = ok x

  abbrev pub final : List T → Run T
  final [] = fault
  final (x ∷ []) = ok x
  final (x ∷ y ∷ xs) = final (y ∷ xs)

module _ {T : Type 0} (zeroed : T) where
  -- An object can be removed from no position.
  unfoldable pub step : Call T → List T → Run (Answer T × List T)
  step (push_back fresh stale x) xs = ok (done, xs ++ x ∷ [])
  step (push_front fresh x) xs = ok (done, x ∷ xs)
  step (read pos) xs = ok (object (get_or xs pos zeroed), xs)
  step (replace pos x) xs = ok (done, set xs pos x)
  step count xs = ok (number (length xs), xs)
  step (remove pos) xs = do x ← if leb (length xs) pos then ok zeroed else fault; ok (object x, xs)
  step front_object xs = do x ← first xs; ok (object x, xs)
  step back_object xs = do x ← final xs; ok (object x, xs)

  unfoldable pub run : List (Call T) → List T → Run (List (Answer T))
  unfolding step
  run [] xs = ok []
  run (c ∷ calls) xs = do next ← step c xs; answers ← run calls next.1; ok (next.0 ∷ answers)
