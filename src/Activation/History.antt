-- ===== src/Activation/History.antt =====
-- Kernel/src/activation_runtime.go: the index after any sequence of replacements and removals.
use memory_ai.Prelude.{ℕ, String, Bool, List, [], ◌∷◌, arith}
use memory_ai.Prelude.Int.{ℤ}
use memory_ai.Prelude.Table.{get}
use memory_ai.Activation.{SparseActivationRuntime, replace_node, remove_node, reset}
use memory_ai.Activation.Consistency.{
  IsConsistent, replace_node-IsConsistent, remove_node-IsConsistent, reset-IsConsistent,
}
use memory_ai.Activation.Emptiness.{
  HasNoEmptyPosting, replace_node-HasNoEmptyPosting, remove_node-HasNoEmptyPosting,
}

pub IsWellFormed : SparseActivationRuntime → Type 0
IsWellFormed r = IsConsistent r × HasNoEmptyPosting r.postings

replace_node-IsWellFormed :
    (id : String) (features : List String) (fp : ℕ) (r : SparseActivationRuntime)
    → IsWellFormed r
    → IsWellFormed (replace_node id features fp r)
unfolding IsWellFormed
replace_node-IsWellFormed id features fp r (h, e) = (
  replace_node-IsConsistent id features fp r h,
  replace_node-HasNoEmptyPosting id features fp r e,
)

remove_node-IsWellFormed :
    (id : String) (r : SparseActivationRuntime) → IsWellFormed r → IsWellFormed (remove_node id r)
unfolding IsWellFormed
remove_node-IsWellFormed id r (h, e) =
    (remove_node-IsConsistent id r h, remove_node-HasNoEmptyPosting id r e)

reset-IsWellFormed :
    (persistent : Bool) (base_nodes : ℤ) (r : SparseActivationRuntime)
    → IsWellFormed (reset persistent base_nodes r)
unfolding IsWellFormed reset HasNoEmptyPosting get
reset-IsWellFormed persistent base_nodes r =
    (reset-IsConsistent persistent base_nodes r, λ f ids k. ground arith)

pub data Change : Type 0 where
  replaced : String → List String → ℕ → Change
  removed : String → Change

unfoldable pub change_node : Change → SparseActivationRuntime → SparseActivationRuntime
change_node (replaced id features fp) r = replace_node id features fp r
change_node (removed id) r = remove_node id r

unfoldable pub change_nodes : List Change → SparseActivationRuntime → SparseActivationRuntime
change_nodes [] r = r
change_nodes (c ∷ cs) r = change_nodes cs (change_node c r)

change_node-IsWellFormed :
    (c : Change) (r : SparseActivationRuntime) → IsWellFormed r → IsWellFormed (change_node c r)
unfolding change_node
change_node-IsWellFormed (replaced id features fp) r h =
    replace_node-IsWellFormed id features fp r h
change_node-IsWellFormed (removed id) r h = remove_node-IsWellFormed id r h

IsWellFormed-change_nodes :
    (cs : List Change) (r : SparseActivationRuntime)
    → IsWellFormed r
    → IsWellFormed (change_nodes cs r)
unfolding change_nodes
IsWellFormed-change_nodes [] r h = h
IsWellFormed-change_nodes (c ∷ cs) r h =
    IsWellFormed-change_nodes cs (change_node c r) (change_node-IsWellFormed c r h)

-- From a reset of the index, whatever records are then replaced and removed, the posting of a feature
-- has exactly the ids under which the feature is stored: a replaced or removed record leaves no id
-- behind, and no other record loses its own. No posting is kept without an id.
pub change_nodes-IsWellFormed :
    (cs : List Change) (persistent : Bool) (base_nodes : ℤ) (r : SparseActivationRuntime)
    → IsWellFormed (change_nodes cs (reset persistent base_nodes r))
change_nodes-IsWellFormed cs persistent base_nodes r =
    IsWellFormed-change_nodes cs (reset persistent base_nodes r)
      (reset-IsWellFormed persistent base_nodes r)
