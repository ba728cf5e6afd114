-- ===== src/Activation/Consistency.antt =====
-- Kernel/src/activation_runtime.go: the postings agree with the features of the records.
use memory_ai.Prelude.{
  ℕ, String, ◌≡◌, refl, Bool, true, false, ◌&&◌, ◌||◌, not, List, [], ◌∷◌, none, some, ◌==◌, eq_iff,
  arith, contains, Option-cases, inl, inr,
}
use memory_ai.Prelude.Int.{ℤ}
use memory_ai.Prelude.Table.{Table, get, put, remove, has, get-put, get-remove, get-empty}
use memory_ai.Security.{is_empty}
use memory_ai.Activation.{
  Postings, SparseActivationRuntime, unpost_one, unpost, post_one, post, features_of, replace_node,
  remove_node, reset,
}

-- The posting of a feature has the id.
unfoldable pub posted : Postings → String → String → Bool
posted p f id = elim (get p f) [ none ↦ false | some ids ↦ has ids id ]

has-is_empty : (m : Table (Unit {0})) (k : String) → is_empty m ≡ true → has m k ≡ false
unfolding get
has-is_empty [] k h = refl
has-is_empty (e ∷ m) k h = ground arith

posted-unpost_one :
    (f id g j : String) (p : Postings)
    → posted (unpost_one f id p) g j ≡ (posted p g j && not (f == g && id == j))
unfolding posted unpost_one
posted-unpost_one f id g j p = elim (Option-cases (get p f)) [
  | inl e ↦ ground (arith, eq_iff f g)
  | inr (ids, e) ↦ ground (
    arith,
    eq_iff f g,
    get-remove p f g,
    get-put p f g (remove ids id),
    get-remove ids id j,
    has-is_empty (remove ids id) j,
  )
]

posted-post_one :
    (f id g j : String) (p : Postings)
    → posted (post_one f id p) g j ≡ (posted p g j || (f == g && id == j))
unfolding posted post_one
posted-post_one f id g j p = elim (Option-cases (get p f)) [
  | inl e ↦ ground (
    arith,
    eq_iff f g,
    get-put p f g (put [] id tt),
    get-put {V = Unit {0}} [] id j tt,
    get-empty {V = Unit {0}} j,
  )
  | inr (ids, e) ↦ ground (arith, eq_iff f g, get-put p f g (put ids id tt), get-put ids id j tt)
]

posted-unpost :
    (fs : List String) (id g j : String) (p : Postings)
    → posted (unpost fs id p) g j ≡ (posted p g j && not (contains fs g && id == j))
unfolding unpost contains
posted-unpost [] id g j p = ground arith
posted-unpost (f ∷ fs) id g j p =
    ground (arith, posted-unpost fs id g j (unpost_one f id p), posted-unpost_one f id g j p)

posted-post :
    (fs : List String) (id g j : String) (p : Postings)
    → posted (post fs id p) g j ≡ (posted p g j || contains fs g && id == j)
unfolding post contains
posted-post [] id g j p = ground arith
posted-post (f ∷ fs) id g j p =
    ground (arith, posted-post fs id g j (post_one f id p), posted-post_one f id g j p)

-- The posting of a feature has exactly the ids of the records with the feature.
unfoldable pub IsConsistent : SparseActivationRuntime → Type 0
IsConsistent r = (f id : String) → posted r.postings f id ≡ contains (features_of r id) f

pub replace_node-IsConsistent :
    (id : String) (features : List String) (fp : ℕ) (r : SparseActivationRuntime)
    → IsConsistent r
    → IsConsistent (replace_node id features fp r)
unfolding IsConsistent replace_node features_of
replace_node-IsConsistent id features fp r h g j = ground (
  arith,
  h g j,
  eq_iff id j,
  posted-post features id g j (unpost (features_of r id) id r.postings),
  posted-unpost (features_of r id) id g j r.postings,
  get-put r.node_feature id j features,
)

pub remove_node-IsConsistent :
    (id : String) (r : SparseActivationRuntime) → IsConsistent r → IsConsistent (remove_node id r)
unfolding IsConsistent remove_node features_of contains
remove_node-IsConsistent id r h g j = elim (Option-cases (get r.node_feature id)) [
  | inl e ↦ ground (arith, h g j)
  | inr (old, e) ↦ ground (
    arith,
    h g j,
    eq_iff id j,
    posted-unpost old id g j r.postings,
    get-remove r.node_feature id j,
  )
]

pub reset-IsConsistent :
    (persistent : Bool) (base_nodes : ℤ) (r : SparseActivationRuntime)
    → IsConsistent (reset persistent base_nodes r)
unfolding IsConsistent reset features_of posted contains get
reset-IsConsistent persistent base_nodes r g j = refl
