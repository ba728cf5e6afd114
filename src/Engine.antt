-- ===== src/Engine.antt =====
-- Kernel/src/kernel.go and fabric_write_runtime.go: one physical body. A persisted store lies under
-- a cache of live records; the sets new, dirty and deleted and the tag deltas say how the live view
-- differs from the store. Each operation runs under dataMu, so it is one step of the model.
-- The store (store.go) is a record of its reads, which may fail.
pub mod View
pub mod Tags
pub mod Edits
pub mod Listing
pub mod Effects
mod Tests
use memory_ai.Prelude.{
  ℕ, ◌+◌, String, Bool, true, false, ◌&&◌, ◌||◌, not, List, [], ◌∷◌, ◌++◌, Option, none, some, ◌==◌,
  if◌then◌else◌, contains, Error, Result, ok, err, failure, eof, map,
}
use memory_ai.Prelude.Table.{Table, get, put, remove, has, flag, keys}
use memory_ai.Prelude.Text.{trim_space, sort_strings}
use memory_ai.Model.{Memory}

-- IndexedStore: GetID, TagIDs, AllIDs and memoryCount.
pub record Store : Type 0 where
  pub get_id : String → Result Memory
  pub tag_ids : String → Result (List String)
  pub all_ids : Result (List String)
  pub memory_count : ℕ

pub record Engine : Type 0 where
  pub body_path : String
  pub role : String
  pub store : Store
  pub cache : Table Memory
  pub new_ids : Table Bool
  pub dirty_ids : Table Bool
  pub deleted_ids : Table Bool
  pub dirty : Bool
  pub tag_added : Table (Table Bool)
  pub tag_removed : Table (Table Bool)
  pub page_ins : ℕ

-- Reading a nil inner map gives no ids.
abbrev pub ids_of : Table (Table Bool) → String → Table Bool
ids_of t tag = elim (get t tag) [ none ↦ [] | some ids ↦ ids ]

-- t[tag][id] = true, with the inner map made on demand.
abbrev pub tag_set : Table (Table Bool) → String → String → Table (Table Bool)
tag_set t tag id = put t tag (put (ids_of t tag) id true)

-- if t[tag] != nil { delete(t[tag], id) }
abbrev pub tag_unset : Table (Table Bool) → String → String → Table (Table Bool)
tag_unset t tag id = elim (get t tag) [ none ↦ t | some ids ↦ put t tag (remove ids id) ]

unfoldable pub tag_delta_add_locked : String → String → Engine → Engine
tag_delta_add_locked id tag e = if tag == "" then e else record e {
  tag_added = tag_set e.tag_added tag id;
  tag_removed = tag_unset e.tag_removed tag id;
}

unfoldable pub tag_delta_remove_locked : String → String → Engine → Engine
tag_delta_remove_locked id tag e = if tag == "" then e else record e {
  tag_removed = tag_set e.tag_removed tag id;
  tag_added = tag_unset e.tag_added tag id;
}

-- for _, t := range tags { e.tagDelta…Locked(id, t) }
unfoldable pub add_tags : String → List String → Engine → Engine
add_tags id [] e = e
add_tags id (t ∷ ts) e = add_tags id ts (tag_delta_add_locked id t e)

unfoldable pub remove_tags : String → List String → Engine → Engine
remove_tags id [] e = e
remove_tags id (t ∷ ts) e = remove_tags id ts (tag_delta_remove_locked id t e)

-- resolveIDLocal, its first locked part: what the live state answers without the store.
unfoldable pub resolve_live : Engine → String → Option (Result Memory)
resolve_live e id =
    if flag e.deleted_ids id
    then some (err eof)
    else elim (get e.cache id) [ none ↦ none | some m ↦ some (ok m) ]

-- Its last locked part: install what the store returned, unless the state has changed meanwhile.
unfoldable pub install_page : Engine → String → Memory → Result Memory × Engine
install_page e id m = if flag e.deleted_ids id then (err eof, e) else elim (get e.cache id) [
  | some existing ↦ (ok existing, e)
  | none ↦ (ok m, record e { cache = put e.cache id m; page_ins = e.page_ins + 1 })
]

-- A canonical engine records no speculative baseline between the two parts.
unfoldable pub resolve_id_local : Engine → String → Result Memory × Engine
resolve_id_local e id = elim (resolve_live e id) [
  | some r ↦ (r, e)
  | none ↦ elim (e.store.get_id id) [ err x ↦ (err x, e) | ok m ↦ install_page e id m ]
]

-- The loop over the store's ids. `seen` of the source holds exactly the ids of `out`.
unfoldable pub list_stored : Engine → Table Bool → List String → List String → List String
list_stored e removed [] out = out
list_stored e removed (id ∷ ids) out =
    list_stored e removed ids
      (if flag e.deleted_ids id || flag removed id then out else out ++ id ∷ [])

-- for id := range add
unfoldable pub list_added : Engine → List String → List String → List String
list_added e [] out = out
list_added e (id ∷ ids) out =
    list_added e ids
      (if not (flag e.deleted_ids id) && not (contains out id) then out ++ id ∷ [] else out)

-- The test of the loop over the cache, for one id.
abbrev pub cached_with : Engine → String → String → Bool
cached_with e tag id = elim (get e.cache id) [ none ↦ false | some m ↦ contains m.tags tag ]

-- for id, m := range e.cache
unfoldable pub list_cached : Engine → String → List String → List String → List String
list_cached e tag [] out = out
list_cached e tag (id ∷ ids) out = list_cached e tag ids (
    if not (flag e.deleted_ids id) && (cached_with e tag id && not (contains out id))
    then out ++ id ∷ []
    else out)

unfoldable pub stored_or_empty : Result (List String) → Result (List String)
stored_or_empty (ok ids) = ok ids
stored_or_empty (err eof) = ok []
stored_or_empty (err e) = err e

unfoldable pub list_tag_local : Engine → String → Result (List String)
unfolding stored_or_empty
list_tag_local e tag = elim (stored_or_empty (e.store.tag_ids tag)) [
  | err x ↦ err x
  | ok ids ↦
      let out = list_stored e (ids_of e.tag_removed tag) ids [] in
      let out' = list_added e (keys (ids_of e.tag_added tag)) out in
      ok (sort_strings (list_cached e tag (keys e.cache) out'))
]

-- case "cache_drop" of the primitives: only clean records leave the cache.
unfoldable pub cache_drop : String → Engine → Engine
cache_drop id e =
    if not (flag e.dirty_ids id) && not (flag e.new_ids id)
    then record e { cache = remove e.cache id }
    else e

-- addRuntimeMemory, past its checks of nil, of a blank id and of the record's size.
unfoldable pub add_runtime_memory : Memory → Engine → Engine
add_runtime_memory m e = add_tags m.id m.tags (record e {
  cache = put e.cache m.id m;
  new_ids = put e.new_ids m.id true;
  dirty_ids = put e.dirty_ids m.id true;
  dirty = true;
})

-- The tags that the record had before an upsert: the live ones, else the persisted ones.
unfoldable pub old_tags : Engine → String → Result Memory → List String
old_tags e id persisted = elim (get e.cache id) [
  | some old ↦ old.tags
  | none ↦ elim persisted [ ok old ↦ old.tags | err _ ↦ [] ]
]

-- What upsertExplicitMemoryOnOwner writes, given the store's answer.
unfoldable pub upsert_locked : Result Memory → Memory → Engine → Engine
upsert_locked persisted q e =
    let e₁ = remove_tags q.id (old_tags e q.id persisted) e in
    let e₂ = add_tags q.id q.tags (record e₁ { cache = put e₁.cache q.id q }) in
    record e₂ {
      new_ids = elim persisted [ ok _ ↦ remove e₂.new_ids q.id | err _ ↦ put e₂.new_ids q.id true ];
      deleted_ids = remove e₂.deleted_ids q.id;
      dirty_ids = put e₂.dirty_ids q.id true;
      dirty = true;
    }

-- A failing read other than io.EOF stops the upsert.
unfoldable pub upsert_answer : Result Memory → Memory → Engine → Result (Unit {0}) × Engine
upsert_answer (ok old) q e = (ok tt, upsert_locked (ok old) q e)
upsert_answer (err eof) q e = (ok tt, upsert_locked (err eof) q e)
upsert_answer (err x) q e = (err x, e)

unfoldable pub upsert_explicit_memory_on_owner : Memory → Engine → Result (Unit {0}) × Engine
unfolding upsert_answer
upsert_explicit_memory_on_owner q e =
    if trim_space q.id == ""
    then (err (failure "explicit Memory update requires physical owner and id"), e)
    else upsert_answer (e.store.get_id q.id) q e

-- deleteExplicitMemoryBounded, on the owner that it found together with the record m.
unfoldable pub delete_locked : String → Memory → Engine → Engine
delete_locked id m e =
    let e₁ = remove_tags id m.tags e in
    record e₁ {
      deleted_ids = put e₁.deleted_ids id true;
      cache = remove e₁.cache id;
      new_ids = remove e₁.new_ids id;
      dirty_ids = remove e₁.dirty_ids id;
      dirty = true;
    }

-- The bodies of a process by path.
abbrev pub Fabric : Type 0
Fabric = Table Engine

-- A write to one body of a Fabric.
abbrev pub on_body : String → (Engine → Engine) → Fabric → Fabric
on_body owner f fabric = elim (get fabric owner) [ none ↦ fabric | some e ↦ put fabric owner (f e) ]
