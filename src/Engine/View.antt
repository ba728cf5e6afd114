-- ===== src/Engine/View.antt =====
-- Kernel/src/kernel.go: what a body shows under an id, and the state that it keeps to show it.
use memory_ai.Prelude.{
  String, ◌≡◌, true, false, Option, none, some, eq_iff, arith, if◌then◌else◌, ok, err, Result-cases,
  Option-cases, inl, inr,
}
use memory_ai.Prelude.Table.{get, flag, get-put, get-remove}
use memory_ai.Model.{Memory}
use memory_ai.Engine.{Engine, resolve_live, install_page, resolve_id_local, cache_drop}

-- The record that the store holds under an id, where its read succeeds.
abbrev pub stored : Engine → String → Option Memory
stored e id = elim (e.store.get_id id) [ ok m ↦ some m | err _ ↦ none ]

-- The live view: a tombstone hides the id, a cached record hides the stored one.
unfoldable pub view : Engine → String → Option Memory
view e id =
    if flag e.deleted_ids id
    then none
    else elim (get e.cache id) [ some m ↦ some m | none ↦ stored e id ]

-- Without the execution counter, which is telemetry and is not persisted.
abbrev pub strip : Memory → Memory
strip m = record m { runtime_exec_count = 0 }

abbrev pub structure : Option Memory → Option Memory
structure none = none
structure (some m) = some (strip m)

-- Resolving an id answers exactly with the live view of that id, and leaves the live view of every
-- id as it was; in particular paging a record in is invisible.
pub resolve_id_local-view :
    (e : Engine) (id : String)
    → ((m : Memory)
        → ((resolve_id_local e id).0 ≡ ok m → view e id ≡ some m)
          × (view e id ≡ some m → (resolve_id_local e id).0 ≡ ok m))
      × ((j : String) → view (resolve_id_local e id).1 j ≡ view e j)
unfolding resolve_id_local resolve_live install_page view
resolve_id_local-view e id = (
  λ m. (ground arith, ground arith),
  λ j. elim (Result-cases (e.store.get_id id)) [
    | inl (m, p) ↦ ground (arith, get-put e.cache id j m, eq_iff id j)
    | inr (x, p) ↦ ground arith
  ],
)

-- Whatever the state has become while the store was read, installing the page changes neither a
-- live record nor a tombstone: the cache keeps every entry that it has, and an id that was deleted
-- meanwhile is not resurrected.
pub install_page-safe :
    (e : Engine) (id : String) (m : Memory) (j : String)
    → ((x : Memory) → get e.cache j ≡ some x → get (install_page e id m).1.cache j ≡ some x)
      × ((flag e.deleted_ids j ≡ true) → view (install_page e id m).1 j ≡ none)
      × ((flag e.deleted_ids id ≡ true) → (install_page e id m).1 ≡ e)
unfolding install_page view
install_page-safe e id m j = (
  λ x h. ground (arith, get-put e.cache id j m, eq_iff id j),
  λ h. ground arith,
  λ h. ground arith,
)

-- Every cached record that is neither dirty nor new is the stored one, but for its counter.
pub record IsCoherent (e : Engine) : Type 0 where
  pub clean :
      (id : String) (m : Memory)
      → get e.cache id ≡ some m
      → flag e.dirty_ids id ≡ false
      → flag e.new_ids id ≡ false
      → structure (stored e id) ≡ some (strip m)

-- In a coherent body, dropping a record from the cache changes no id's view but for the execution
-- counter, whatever id it is asked to drop.
pub cache_drop-view :
    (e : Engine) (id j : String)
    → IsCoherent e
    → structure (view (cache_drop id e) j) ≡ structure (view e j)
unfolding cache_drop view
cache_drop-view e id j h = elim (Option-cases (get e.cache id)) [
  | inl p ↦ ground (arith, get-remove e.cache id j, eq_iff id j)
  | inr (m, p) ↦ ground (arith, get-remove e.cache id j, eq_iff id j, h.clean id m)
]
