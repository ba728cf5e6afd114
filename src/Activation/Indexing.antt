-- ===== src/Activation/Indexing.antt =====
-- Kernel/src/activation_runtime.go: under which features a Memory is found after it is indexed.
use mathlib.Core.Path.{subst}
use Prim.Native.String as Str
use memory_ai.Prelude.{
  ℕ, String, ◌≡◌, ◌↔◌, sym, ◌∙◌, true, false, ◌&&◌, not, List, [], ◌∷◌, map, some, ◌==◌, eq_iff,
  eq_refl, arith, contains, if◌then◌else◌, Bool-cases, inl, inr,
}
use memory_ai.Prelude.Table.{Table, get, has, keys, get-put, contains-keys}
use memory_ai.Prelude.Text.{trim_space, sort_strings, contains-sort_strings}
use memory_ai.Model.{Memory, Value}
use memory_ai.Activation.{SparseActivationRuntime, features_of, has_fingerprint, replace_node}
use memory_ai.Activation.Consistency.{IsConsistent, posted, replace_node-IsConsistent}
use memory_ai.Activation.Found.{
  Trims, Prefixed, ShowsAs, KeyFeature, key-Trims, Trims-head, Trims-tail, Trims-cons, Trims-append,
  Trims-left, Trims-right, Prefixed-Trims,
}
use memory_ai.Activation.Features.{
  add_features, key_features, state_features, candidates, activation_features_for_memory,
  activation_fingerprint, index_memory, contains-add_features,
}

features_of-replace_node :
    (id j : String) (features : List String) (fp : ℕ) (r : SparseActivationRuntime)
    → (id == "") ≡ false
    → has_fingerprint r id fp ≡ false
    → features_of (replace_node id features fp r) j
      ≡ (if id == j then features else features_of r j)
unfolding features_of replace_node
features_of-replace_node id j features fp r h k =
    ground (arith, eq_iff id j, get-put r.node_feature id j features)

module _ (print_number : ℕ → String) (bytes : String → List ℕ) where
  contains-activation_features_for_memory :
      (m : Memory) (f : String)
      → contains (activation_features_for_memory print_number bytes m) f
        ≡ (contains (map trim_space (candidates print_number bytes m)) f && not (f == ""))
  unfolding activation_features_for_memory contains
  contains-activation_features_for_memory m f = ground (
    arith,
    contains-sort_strings (add_features [] (candidates print_number bytes m)) f,
    contains-add_features [] (candidates print_number bytes m) f,
  )

  state-Trims :
      (state : Table Value) (ks : List String) (f : String)
      → Trims (state_features print_number bytes state ks) f
        ↔ ((k : String) × (contains ks k ≡ true) × KeyFeature print_number state k f)
  unfolding state_features contains Trims
  state-Trims state [] f = (λ h. absurd (ground arith), λ (k, h, e). absurd (ground arith))
  state-Trims state (k ∷ ks) f =
      let one = key_features print_number bytes state k in
      let more = state_features print_number bytes state ks in
      let key = key-Trims print_number bytes state k f in
      let rest = state-Trims state ks f in
      (
        λ h. elim (Trims-append one more f h) [
          | inl this ↦ (k, ground (arith, eq_refl k), key.0 this)
          | inr other ↦ let (j, there, e) = rest.0 other in (j, ground arith, e)
        ],
        λ (j, there, e). elim (Bool-cases (k == j)) [
          | inl this ↦
              Trims-left one more f (
                key.1
                  (subst (λ q. KeyFeature print_number state q f) (sym ((eq_iff k j).0 this)) e))
          | inr other ↦ Trims-right one more f (rest.1 (j, ground arith, e))
        ],
      )

  -- What a Memory is to be found under: each text is trimmed.
  pub data IsFeature (m : Memory) (f : String) : Type 0 where
    of_id : f ≡ trim_space (Str.◌++◌ "id:" m.id) → IsFeature m f
    of_tag : Prefixed "tag:" m.tags f → IsFeature m f
    of_trigger : Prefixed "trigger:" m.trigger f → IsFeature m f
    of_key :
        (k : String)
        → has m.state k ≡ true
        → f ≡ trim_space (Str.◌++◌ "state-key:" k)
        → IsFeature m f
    of_scalar :
        (k : String) (v : Value) (t : String)
        → get m.state k ≡ some v
        → ShowsAs print_number v t
        → f ≡ trim_space (Str.◌++◌ "state-kv:" (Str.◌++◌ k (Str.◌++◌ "=" t)))
        → IsFeature m f

  has-sorted : (m : Memory) (k : String) → contains (sort_strings (keys m.state)) k ≡ has m.state k
  has-sorted m k = contains-sort_strings (keys m.state) k ∙ contains-keys m.state k

  Trims-IsFeature :
      (m : Memory) (f : String) → Trims (candidates print_number bytes m) f → IsFeature m f
  unfolding candidates
  Trims-IsFeature m f h = elim (Trims-cons _ f _ h) [
    | inl e ↦ of_id e
    | inr h1 ↦ elim (Trims-append (map (Str.◌++◌ "tag:") m.tags) _ f h1) [
      | inl tag ↦ of_tag ((Prefixed-Trims "tag:" m.tags f).0 tag)
      | inr h2 ↦ elim (Trims-append (map (Str.◌++◌ "trigger:") m.trigger) _ f h2) [
        | inl trigger ↦ of_trigger ((Prefixed-Trims "trigger:" m.trigger f).0 trigger)
        | inr h3 ↦
            let (k, there, q) = (state-Trims m.state (sort_strings (keys m.state)) f).0 h3 in
            elim q [
              | inl e ↦ of_key k (sym (has-sorted m k) ∙ there) e
              | inr (v, t, held, shown, e) ↦ of_scalar k v t held shown e
            ]
      ]
    ]
  ]

  IsFeature-Trims :
      (m : Memory) (f : String) → IsFeature m f → Trims (candidates print_number bytes m) f
  unfolding candidates
  IsFeature-Trims m f (of_id e) = Trims-head _ f _ e
  IsFeature-Trims m f (of_tag q) =
      Trims-tail _ f _
        (Trims-left (map (Str.◌++◌ "tag:") m.tags) _ f ((Prefixed-Trims "tag:" m.tags f).1 q))
  IsFeature-Trims m f (of_trigger q) = Trims-tail _ f _ (
      Trims-right (map (Str.◌++◌ "tag:") m.tags) _ f (
        Trims-left (map (Str.◌++◌ "trigger:") m.trigger) _ f
          ((Prefixed-Trims "trigger:" m.trigger f).1 q)))
  IsFeature-Trims m f (of_key k held e) = Trims-tail _ f _ (
      Trims-right (map (Str.◌++◌ "tag:") m.tags) _ f (
        Trims-right (map (Str.◌++◌ "trigger:") m.trigger) _ f (
          (state-Trims m.state (sort_strings (keys m.state)) f).1
            (k, has-sorted m k ∙ held, inl e))))
  IsFeature-Trims m f (of_scalar k v t held shown e) = Trims-tail _ f _ (
      Trims-right (map (Str.◌++◌ "tag:") m.tags) _ f (
        Trims-right (map (Str.◌++◌ "trigger:") m.trigger) _ f (
          (state-Trims m.state (sort_strings (keys m.state)) f).1
            (k, has-sorted m k ∙ ground arith, inr (v, t, held, shown, e)))))

  posted-Trims :
      (m : Memory) (r : SparseActivationRuntime) (f : String)
      → IsConsistent r
      → (m.id == "") ≡ false
      → has_fingerprint r m.id (activation_fingerprint print_number bytes m) ≡ false
      → posted (index_memory print_number bytes m r).postings f m.id
        ≡ (contains (map trim_space (candidates print_number bytes m)) f && not (f == ""))
  unfolding index_memory IsConsistent
  posted-Trims m r f h named changed =
      let features = activation_features_for_memory print_number bytes m in
      let fp = activation_fingerprint print_number bytes m in
      ground (
        arith,
        replace_node-IsConsistent m.id features fp r h f m.id,
        features_of-replace_node m.id m.id features fp r named changed,
        eq_refl m.id,
        contains-activation_features_for_memory m f,
      )

  posted-others :
      (m : Memory) (r : SparseActivationRuntime) (f j : String)
      → IsConsistent r
      → (m.id == "") ≡ false
      → has_fingerprint r m.id (activation_fingerprint print_number bytes m) ≡ false
      → (m.id == j) ≡ false
      → posted (index_memory print_number bytes m r).postings f j ≡ posted r.postings f j
  unfolding index_memory IsConsistent
  posted-others m r f j h named changed other =
      let features = activation_features_for_memory print_number bytes m in
      let fp = activation_fingerprint print_number bytes m in
      ground (
        arith,
        h f j,
        replace_node-IsConsistent m.id features fp r h f j,
        features_of-replace_node m.id j features fp r named changed,
      )

  -- After a Memory is indexed in a consistent index, it is found under a text exactly when the text is not
  -- empty and is a feature of the Memory, trimmed: its id, one of its tags, one of its triggers, a key of
  -- its state, or a key of its state with the scalar there. What is found for another record is what was
  -- found before. The Memory has an id, and its fingerprint is not the one that the index has for it.
  pub index_memory-posted :
      (m : Memory) (r : SparseActivationRuntime) (f j : String)
      → IsConsistent r
      → (m.id == "") ≡ false
      → has_fingerprint r m.id (activation_fingerprint print_number bytes m) ≡ false
      → (m.id == j) ≡ false
      → ((posted (index_memory print_number bytes m r).postings f m.id ≡ true)
          ↔ ((f == "") ≡ false × IsFeature m f))
        × (posted (index_memory print_number bytes m r).postings f j ≡ posted r.postings f j)
  unfolding Trims
  index_memory-posted m r f j h named changed other =
      let found = posted-Trims m r f h named changed in
      (
        (
          λ p. (ground arith, Trims-IsFeature m f (ground arith)),
          λ (filled, feature). let trimmed = IsFeature-Trims m f feature in ground arith,
        ),
        posted-others m r f j h named changed other,
      )
