-- ===== src/LinkedList/Tests.antt =====
-- Lists of numbers in a small memory.
use literate_os.Common.{
  ◌∙◌, ℕ, ◌≡◌, refl, ◌≢◌, true, Option, some, none, List, [], ◌∷◌, arith, ◌==◌, if◌then◌else◌,
}
use literate_os.Common.Run.{ok, fault}
use literate_os.LinkedList.{Ptr, Node, LinkedList, empty, clear, destroy}
use literate_os.LinkedList.Chain.{Cells, has, Chain, last, more}
use literate_os.LinkedList.Operations.{IsList, nodes}
use literate_os.LinkedList.Calls.{
  Call, push_back, push_front, read, replace, count, remove, front_object, back_object, done,
  object, number, run,
}
use literate_os.LinkedList.Sequence
use literate_os.LinkedList.Refine.{run_refines}
use literate_os.LinkedList.Release.{clear-leaks, destroy-fault}

abbrev no_memory : Ptr → Option (Node ℕ)
no_memory p = none

-- A new block holds what was there before.
abbrev stale : Node ℕ
stale = record { next = 77; prev = 78; obj = 79 }

abbrev history : List (Call ℕ)
history =
    push_back 16 stale 5
    ∷ push_front 32 6
    ∷ push_back 48 stale 7
    ∷ replace 2 8
    ∷ read 2
    ∷ read 3
    ∷ count
    ∷ front_object
    ∷ back_object
    ∷ []

run_refines_example : run 0 history (empty no_memory) ≡ Sequence.run 0 history []
run_refines_example = run_refines 0 no_memory history refl (omega arith)

history_answers :
    run 0 history (empty no_memory)
    ≡ ok (done ∷ done ∷ done ∷ done ∷ object 8 ∷ object 0 ∷ number 3 ∷ object 6 ∷ object 8 ∷ [])
unfolding run Sequence.run Sequence.step
history_answers = run_refines 0 no_memory history refl (omega arith) ∙ refl

removal_faults : run 0 (push_back 16 stale 5 ∷ remove 0 ∷ []) (empty no_memory) ≡ fault
unfolding run Sequence.run Sequence.step
removal_faults =
    run_refines 0 no_memory (push_back 16 stale 5 ∷ remove 0 ∷ []) refl (omega arith) ∙ refl

abbrev first_node : Node ℕ
first_node = record { next = 32; prev = 0; obj = 5 }

abbrev last_node : Node ℕ
last_node = record { next = 0; prev = 16; obj = 6 }

abbrev memory : Ptr → Option (Node ℕ)
memory p = if p == 16 then some first_node else if p == 32 then some last_node else none

abbrev two_nodes : LinkedList ℕ
two_nodes = record { heap = memory; front = 16; back = 32; num = 2 }

abbrev two_cells : Cells ℕ
two_cells = (16, 5) ∷ (32, 6) ∷ []

two_nodes-Chain : Chain memory 32 16 two_cells
two_nodes-Chain = more (ground arith) refl refl refl refl (last refl (ground arith) refl refl)

clear-leaks_example :
    (t : LinkedList ℕ) × (clear 3 two_nodes ≡ ok t)
    × IsList t []
    × (t.heap 32 ≡ some last_node)
    × ((a : Ptr) → has a two_cells ≡ true → a ≢ 32 → t.heap a ≡ none)
clear-leaks_example = clear-leaks 3 two_nodes two_nodes-Chain refl refl (omega arith)

destroy-two_nodes : destroy 2 two_nodes ≡ fault
destroy-two_nodes = destroy-fault 0 two_nodes (nodes two_nodes-Chain refl) (ground arith)
