-- ===== src/Events/Merge.antt =====
-- Kernel/src/event_runtime.go, independentEventFrameVarsCandidate: what the merge of independent branches
-- gives a variable.
use memory_ai.Prelude.{
  String, ◌≡◌, refl, Bool, true, ◌&&◌, not, List, [], ◌∷◌, Option, none, some, ◌==◌, eq_iff,
  eq_refl, arith, if◌then◌else◌, Result-cases, Option-cases, Bool-cases, inl, inr, ok,
}
use memory_ai.Prelude.Table.{Table, get, put, remove, has, get-put, get-remove, get-empty}
use memory_ai.Model.{Frame}
use memory_ai.Frames.{
  Ceilings, merge_vars, frame_vars_merge_candidate, ensure_frame_vars_within_physical_limit,
}
use memory_ai.Events.{branch_updates, all_updates, independent_event_frame_vars_candidate}

-- A map has one entry for a key.
unfoldable pub distinct : Table String → Bool
distinct [] = true
distinct ((k, v) ∷ rest) = let more = distinct rest in not (has rest k) && more

unfoldable pub all_distinct : List Frame → Bool
all_distinct [] = true
all_distinct (f ∷ fs) = let more = all_distinct fs in distinct f.vars && more

-- What a branch has made of a variable, if it has changed it.
unfoldable pub change_of : Table String → Table String → String → Option String
change_of base vars k = elim (get vars k) [
  | none ↦ none
  | some v ↦ elim (get base k) [ none ↦ some v | some old ↦ if old == v then none else some v ]
]

-- The last branch, in order, that has changed it.
unfoldable pub last_change : Table String → List Frame → String → Option String
last_change base [] k = none
last_change base (f ∷ fs) k =
    let later = last_change base fs k in
    elim later [ some v ↦ some v | none ↦ change_of base f.vars k ]

abbrev pub or_else : Option String → Option String → Option String
or_else (some v) other = some v
or_else none other = other

get-branch_updates :
    (base vars updates : Table String) (k : String)
    → distinct vars ≡ true
    → get (branch_updates base vars updates) k ≡ or_else (change_of base vars k) (get updates k)
unfolding branch_updates distinct change_of get
get-branch_updates base [] updates k h = refl
get-branch_updates base ((j, v) ∷ rest) updates k h = elim (Option-cases (get base j)) [
  | inl new ↦ ground (
    arith,
    get-branch_updates base rest (put updates j v) k (ground arith),
    get-put updates j k v,
    eq_iff j k,
  )
  | inr (old, there) ↦ elim (Bool-cases (old == v)) [
    | inl same ↦ ground (arith, get-branch_updates base rest updates k (ground arith), eq_iff j k)
    | inr changed ↦ ground (
      arith,
      get-branch_updates base rest (put updates j v) k (ground arith),
      get-put updates j k v,
      eq_iff j k,
    )
  ]
]

distinct-remove : (m : Table String) (k : String) → distinct m ≡ true → distinct (remove m k) ≡ true
unfolding distinct remove
distinct-remove [] k h = refl
distinct-remove ((j, v) ∷ rest) k h =
    ground (arith, distinct-remove rest k (ground arith), get-remove rest k j)

distinct-put : (m : Table String) (k v : String) → distinct m ≡ true → distinct (put m k v) ≡ true
unfolding distinct put
distinct-put m k v h = ground (arith, distinct-remove m k h, get-remove m k k, eq_refl k)

distinct-branch_updates :
    (base vars updates : Table String)
    → distinct updates ≡ true
    → distinct (branch_updates base vars updates) ≡ true
unfolding branch_updates
distinct-branch_updates base [] updates h = h
distinct-branch_updates base ((j, v) ∷ rest) updates h = elim (Option-cases (get base j)) [
  | inl new ↦
      ground
        (arith, distinct-branch_updates base rest (put updates j v), distinct-put updates j v h)
  | inr (old, there) ↦ ground (
    arith,
    distinct-branch_updates base rest (put updates j v),
    distinct-put updates j v h,
    distinct-branch_updates base rest updates,
  )
]

distinct-all_updates :
    (base : Table String) (branches : List Frame) (updates : Table String)
    → distinct updates ≡ true
    → distinct (all_updates base branches updates) ≡ true
unfolding all_updates
distinct-all_updates base [] updates h = h
distinct-all_updates base (f ∷ fs) updates h =
    distinct-all_updates base fs (branch_updates base f.vars updates)
      (distinct-branch_updates base f.vars updates h)

get-all_updates :
    (base : Table String) (branches : List Frame) (updates : Table String) (k : String)
    → all_distinct branches ≡ true
    → get (all_updates base branches updates) k
      ≡ or_else (last_change base branches k) (get updates k)
unfolding all_updates all_distinct last_change
get-all_updates base [] updates k h = refl
get-all_updates base (f ∷ fs) updates k h = ground (
  arith,
  get-all_updates base fs (branch_updates base f.vars updates) k (ground arith),
  get-branch_updates base f.vars updates k (ground arith),
  Option-cases (last_change base fs k),
)

get-merge_vars :
    (c : Ceilings) (base updates : Table String) (k : String)
    → distinct updates ≡ true
    → get (merge_vars c base updates) k ≡ or_else (get updates k) (get base k)
unfolding merge_vars distinct get
get-merge_vars c base [] k h = refl
get-merge_vars c base ((j, v) ∷ rest) k h =
    ground
      (arith, get-merge_vars c (put base j v) rest k (ground arith), get-put base j k v, eq_iff j k)

-- A merge that succeeds gives a variable the value of the last branch that has changed it from the
-- common Frame, and leaves one that no branch has changed as the destination has it: so the
-- branches' order matters only where two of them change the same variable.
pub independent_event_frame_vars_candidate-merges :
    (c : Ceilings) (dst base : Frame) (branches : List Frame) (vars : Table String) (k : String)
    → all_distinct branches ≡ true
    → independent_event_frame_vars_candidate c dst base branches ≡ ok vars
    → get vars k ≡ or_else (last_change base.vars branches k) (get dst.vars k)
unfolding independent_event_frame_vars_candidate frame_vars_merge_candidate distinct
independent_event_frame_vars_candidate-merges c dst base branches vars k h merged =
    let updates = all_updates base.vars branches [] in
    ground (
      arith,
      get-empty {V = String} k,
      get-merge_vars c dst.vars updates k (distinct-all_updates base.vars branches [] refl),
      get-all_updates base.vars branches [] k h,
      Option-cases (last_change base.vars branches k),
      Result-cases (ensure_frame_vars_within_physical_limit c (merge_vars c dst.vars updates)),
    )
