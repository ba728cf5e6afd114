-- ===== src/Activation/Emptiness.antt =====
-- Kernel/src/activation_runtime.go: a posting goes with its last id.
use memory_ai.Prelude.{
  ℕ, String, ◌≡◌, false, ◌||◌, List, [], ◌∷◌, some, ◌==◌, eq_iff, arith, Option-cases, Bool-cases,
  inl, inr,
}
use memory_ai.Prelude.Table.{Table, get, put, remove, get-put, get-remove}
use memory_ai.Security.{is_empty}
use memory_ai.Activation.{
  Postings, SparseActivationRuntime, unpost_one, unpost, post_one, post, features_of,
  has_fingerprint, replace_node, remove_node,
}

-- No posting is kept without an id.
unfoldable pub HasNoEmptyPosting : Postings → Type 0
HasNoEmptyPosting p =
    (f : String) (ids : Table (Unit {0})) → get p f ≡ some ids → is_empty ids ≡ false

unpost_one-HasNoEmptyPosting :
    (f id : String) (p : Postings) → HasNoEmptyPosting p → HasNoEmptyPosting (unpost_one f id p)
unfolding HasNoEmptyPosting unpost_one
unpost_one-HasNoEmptyPosting f id p h g js k = elim (Option-cases (get p f)) [
  | inl e ↦ ground (arith, h g js)
  | inr (ids, e) ↦
      ground (arith, h g js, eq_iff f g, get-remove p f g, get-put p f g (remove ids id))
]

post_one-HasNoEmptyPosting :
    (f id : String) (p : Postings) → HasNoEmptyPosting p → HasNoEmptyPosting (post_one f id p)
unfolding HasNoEmptyPosting post_one put
post_one-HasNoEmptyPosting f id p h g js k = elim (Option-cases (get p f)) [
  | inl e ↦ ground (arith, h g js, eq_iff f g, get-put p f g (put [] id tt))
  | inr (ids, e) ↦ ground (arith, h g js, eq_iff f g, get-put p f g (put ids id tt))
]

unpost-HasNoEmptyPosting :
    (fs : List String) (id : String) (p : Postings)
    → HasNoEmptyPosting p
    → HasNoEmptyPosting (unpost fs id p)
unfolding unpost
unpost-HasNoEmptyPosting [] id p h = h
unpost-HasNoEmptyPosting (f ∷ fs) id p h =
    unpost-HasNoEmptyPosting fs id (unpost_one f id p) (unpost_one-HasNoEmptyPosting f id p h)

post-HasNoEmptyPosting :
    (fs : List String) (id : String) (p : Postings)
    → HasNoEmptyPosting p
    → HasNoEmptyPosting (post fs id p)
unfolding post
post-HasNoEmptyPosting [] id p h = h
post-HasNoEmptyPosting (f ∷ fs) id p h =
    post-HasNoEmptyPosting fs id (post_one f id p) (post_one-HasNoEmptyPosting f id p h)

pub replace_node-HasNoEmptyPosting :
    (id : String) (features : List String) (fp : ℕ) (r : SparseActivationRuntime)
    → HasNoEmptyPosting r.postings
    → HasNoEmptyPosting (replace_node id features fp r).postings
unfolding replace_node HasNoEmptyPosting
replace_node-HasNoEmptyPosting id features fp r e =
    elim (Bool-cases (id == "" || has_fingerprint r id fp)) [
      | inl q ↦ λ f ids k. e f ids (ground arith)
      | inr q ↦ λ f ids k.
          post-HasNoEmptyPosting features id (unpost (features_of r id) id r.postings)
            (unpost-HasNoEmptyPosting (features_of r id) id r.postings e) f ids (ground arith)
    ]

pub remove_node-HasNoEmptyPosting :
    (id : String) (r : SparseActivationRuntime)
    → HasNoEmptyPosting r.postings
    → HasNoEmptyPosting (remove_node id r).postings
unfolding remove_node HasNoEmptyPosting
remove_node-HasNoEmptyPosting id r e = elim (Option-cases (get r.node_feature id)) [
  | inl q ↦ λ f ids k. e f ids (ground arith)
  | inr (old, q) ↦ λ f ids k. unpost-HasNoEmptyPosting old id r.postings e f ids (ground arith)
]
