-- ===== src/Engine/Tags.antt =====
-- Kernel/src/kernel.go: the tag deltas of a body, and what a sequence of them amounts to.
use memory_ai.Prelude.{
  String, ◌≡◌, refl, Bool, true, false, ◌&&◌, ◌||◌, not, List, [], ◌∷◌, ◌==◌, eq_iff, arith,
  contains,
}
use memory_ai.Prelude.Table.{Table, put, remove, flag, has, get-put, get-remove, get-empty}
use memory_ai.Model.{Memory}
use memory_ai.Engine.{
  Store, Engine, ids_of, tag_set, tag_unset, tag_delta_add_locked, tag_delta_remove_locked,
  add_tags, remove_tags,
}

-- The deltas for one id and one tag.
abbrev pub added : Engine → String → String → Bool
added e id t = has (ids_of e.tag_added t) id

abbrev pub removed : Engine → String → String → Bool
removed e id t = flag (ids_of e.tag_removed t) id

tag_set_lem :
    (m : Table (Table Bool)) (tag id t j : String)
    → flag (ids_of (tag_set m tag id) t) j ≡ ((tag == t && id == j) || flag (ids_of m t) j)
tag_set_lem m tag id t j = ground (
  arith,
  get-put m tag t (put (ids_of m tag) id true),
  get-put (ids_of m tag) id j true,
  eq_iff tag t,
)

tag_unset_lem :
    (m : Table (Table Bool)) (tag id t j : String)
    → flag (ids_of (tag_unset m tag id) t) j ≡ (not (tag == t && id == j) && flag (ids_of m t) j)
tag_unset_lem m tag id t j = ground (
  arith,
  get-put m tag t (remove (ids_of m tag) id),
  get-remove (ids_of m tag) id j,
  get-empty {V = Bool} j,
  eq_iff tag t,
)

tag_set-has :
    (m : Table (Table Bool)) (tag id t j : String)
    → has (ids_of (tag_set m tag id) t) j ≡ ((tag == t && id == j) || has (ids_of m t) j)
tag_set-has m tag id t j = ground (
  arith,
  get-put m tag t (put (ids_of m tag) id true),
  get-put (ids_of m tag) id j true,
  eq_iff tag t,
)

tag_unset-has :
    (m : Table (Table Bool)) (tag id t j : String)
    → has (ids_of (tag_unset m tag id) t) j ≡ (not (tag == t && id == j) && has (ids_of m t) j)
tag_unset-has m tag id t j = ground (
  arith,
  get-put m tag t (remove (ids_of m tag) id),
  get-remove (ids_of m tag) id j,
  get-empty {V = Bool} j,
  eq_iff tag t,
)

module _ (id tag j t : String) (e : Engine) (named : (t == "") ≡ false) where
  added-delta_add :
      added (tag_delta_add_locked id tag e) j t ≡ ((tag == t && id == j) || added e j t)
  unfolding tag_delta_add_locked
  added-delta_add = ground (arith, tag_set-has e.tag_added tag id t j, eq_iff tag t, eq_iff tag "")

  removed-delta_add :
      removed (tag_delta_add_locked id tag e) j t ≡ (not (tag == t && id == j) && removed e j t)
  unfolding tag_delta_add_locked
  removed-delta_add =
      ground (arith, tag_unset_lem e.tag_removed tag id t j, eq_iff tag t, eq_iff tag "")

  added-delta_remove :
      added (tag_delta_remove_locked id tag e) j t ≡ (not (tag == t && id == j) && added e j t)
  unfolding tag_delta_remove_locked
  added-delta_remove =
      ground (arith, tag_unset-has e.tag_added tag id t j, eq_iff tag t, eq_iff tag "")

  removed-delta_remove :
      removed (tag_delta_remove_locked id tag e) j t ≡ ((tag == t && id == j) || removed e j t)
  unfolding tag_delta_remove_locked
  removed-delta_remove =
      ground (arith, tag_set_lem e.tag_removed tag id t j, eq_iff tag t, eq_iff tag "")

module _ (id j t : String) (named : (t == "") ≡ false) where
  pub added-add_tags :
      (ts : List String) (e : Engine)
      → added (add_tags id ts e) j t ≡ ((contains ts t && id == j) || added e j t)
  unfolding add_tags contains
  added-add_tags [] e = refl
  added-add_tags (x ∷ ts) e =
      ground
        (arith, added-add_tags ts (tag_delta_add_locked id x e), added-delta_add id x j t e named)

  pub removed-add_tags :
      (ts : List String) (e : Engine)
      → removed (add_tags id ts e) j t ≡ (not (contains ts t && id == j) && removed e j t)
  unfolding add_tags contains
  removed-add_tags [] e = refl
  removed-add_tags (x ∷ ts) e =
      ground (
        arith,
        removed-add_tags ts (tag_delta_add_locked id x e),
        removed-delta_add id x j t e named,
      )

  pub added-remove_tags :
      (ts : List String) (e : Engine)
      → added (remove_tags id ts e) j t ≡ (not (contains ts t && id == j) && added e j t)
  unfolding remove_tags contains
  added-remove_tags [] e = refl
  added-remove_tags (x ∷ ts) e = ground (
    arith,
    added-remove_tags ts (tag_delta_remove_locked id x e),
    added-delta_remove id x j t e named,
  )

  pub removed-remove_tags :
      (ts : List String) (e : Engine)
      → removed (remove_tags id ts e) j t ≡ ((contains ts t && id == j) || removed e j t)
  unfolding remove_tags contains
  removed-remove_tags [] e = refl
  removed-remove_tags (x ∷ ts) e = ground (
    arith,
    removed-remove_tags ts (tag_delta_remove_locked id x e),
    removed-delta_remove id x j t e named,
  )

-- All of a body but its tag deltas and its counter.
abbrev pub untagged : Engine → Store × Table Memory × Table Bool × Table Bool × Table Bool
untagged e = (e.store, e.cache, e.new_ids, e.dirty_ids, e.deleted_ids)

pub untagged-add_tags :
    (id : String) (ts : List String) (e : Engine) → untagged (add_tags id ts e) ≡ untagged e
unfolding add_tags tag_delta_add_locked
untagged-add_tags id [] e = refl
untagged-add_tags id (t ∷ ts) e =
    ground (arith, untagged-add_tags id ts (tag_delta_add_locked id t e))

pub untagged-remove_tags :
    (id : String) (ts : List String) (e : Engine) → untagged (remove_tags id ts e) ≡ untagged e
unfolding remove_tags tag_delta_remove_locked
untagged-remove_tags id [] e = refl
untagged-remove_tags id (t ∷ ts) e =
    ground (arith, untagged-remove_tags id ts (tag_delta_remove_locked id t e))
