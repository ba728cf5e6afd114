-- ===== src/Activation.antt =====
-- Kernel/src/activation_runtime.go: the inverted index from the physical features of the records to their
-- ids. The operations here take the features and the fingerprint that Features computes for a Memory. The
-- lock is held for a whole operation.
mod Consistency
mod Emptiness
mod Features
mod Found
mod History
mod Indexing
mod Tests
use memory_ai.Prelude.{
  ℕ, zero, suc, String, Bool, true, false, ◌||◌, not, List, [], ◌∷◌, none, some, leb, ◌&&◌, ◌==◌,
  if◌then◌else◌,
}
use memory_ai.Prelude.Int.{ℤ, pos, negsuc}
use memory_ai.Prelude.Table.{Table, get, put, remove, has}
use memory_ai.Security.{is_empty}

-- map[string]map[string]struct{}
abbrev pub Postings : Type 0
Postings = Table (Table (Unit {0}))

pub record SparseActivationRuntime : Type 0 where
  pub postings : Postings
  pub node_feature : Table (List String)
  pub fingerprint : Table ℕ
  pub persistent_base : Bool
  pub nodes : ℤ

-- delete(p, id) on the posting of a feature; a posting that is then empty goes.
unfoldable pub unpost_one : String → String → Postings → Postings
unpost_one f id p = elim (get p f) [
  | none ↦ p
  | some ids ↦ let rest = remove ids id in if is_empty rest then remove p f else put p f rest
]

unfoldable pub unpost : List String → String → Postings → Postings
unpost [] id p = p
unpost (f ∷ fs) id p = unpost fs id (unpost_one f id p)

-- p[id] = struct{}{} on the posting of a feature, which is made when it is not there.
unfoldable pub post_one : String → String → Postings → Postings
post_one f id p = elim (get p f) [
  | none ↦ put p f (put [] id tt)
  | some ids ↦ put p f (put ids id tt)
]

unfoldable pub post : List String → String → Postings → Postings
post [] id p = p
post (f ∷ fs) id p = post fs id (post_one f id p)

-- r.nodeFeature[id], nil when it is missing.
unfoldable pub features_of : SparseActivationRuntime → String → List String
features_of r id = elim (get r.node_feature id) [ none ↦ [] | some fs ↦ fs ]

-- r.fingerprint[id] == fp, where a missing fingerprint reads 0.
unfoldable pub has_fingerprint : SparseActivationRuntime → String → ℕ → Bool
has_fingerprint r id fp = elim (get r.fingerprint id) [
  | none ↦ leb fp 0
  | some old ↦ leb old fp && leb fp old
]

-- atomic.AddInt64(&r.nodes, 1), short of 2 ^ 63 nodes
unfoldable pub increment : ℤ → ℤ
increment (pos n) = pos (suc n)
increment (negsuc zero) = pos 0
increment (negsuc (suc n)) = negsuc n

-- atomic.AddInt64(&r.nodes, -1), short of 2 ^ 63 nodes
unfoldable pub decrement : ℤ → ℤ
decrement (pos zero) = negsuc 0
decrement (pos (suc n)) = pos n
decrement (negsuc n) = negsuc (suc n)

unfoldable pub replace_node :
    String → List String → ℕ → SparseActivationRuntime → SparseActivationRuntime
replace_node id features fp r = if id == "" || has_fingerprint r id fp then r else record r {
  postings = post features id (unpost (features_of r id) id r.postings);
  node_feature = put r.node_feature id features;
  fingerprint = put r.fingerprint id fp;
  nodes =
      if not (has r.node_feature id) && not r.persistent_base then increment r.nodes else r.nodes;
}

unfoldable pub remove_node : String → SparseActivationRuntime → SparseActivationRuntime
remove_node id r = elim (get r.node_feature id) [
  | none ↦ r
  | some old ↦ record r {
    postings = unpost old id r.postings;
    node_feature = remove r.node_feature id;
    fingerprint = remove r.fingerprint id;
    nodes = if r.persistent_base then r.nodes else decrement r.nodes;
  }
]

unfoldable pub reset : Bool → ℤ → SparseActivationRuntime → SparseActivationRuntime
reset persistent base_nodes r = record r {
  postings = [];
  node_feature = [];
  fingerprint = [];
  persistent_base = persistent;
  nodes = base_nodes;
}
