-- ===== src/Engine/Effects.antt =====
-- Kernel/src/kernel.go and fabric_write_runtime.go: what the writes of a body do to its live view.
use memory_ai.Prelude.{String, ◌≡◌, true, none, some, ◌==◌, eq_iff, arith, if◌then◌else◌, Result}
use memory_ai.Prelude.Table.{flag, get-put, get-remove}
use memory_ai.Model.{Memory}
use memory_ai.Engine.{Engine, add_runtime_memory, old_tags, upsert_locked, delete_locked}
use memory_ai.Engine.View.{view}
use memory_ai.Engine.Tags.{untagged-add_tags, untagged-remove_tags}
use memory_ai.Engine.Edits.{filed, swapped}

module _ (e : Engine) (m : Memory) (j : String) where
  pub view-upsert_locked :
      (r : Result Memory) → view (upsert_locked r m e) j ≡ (if m.id == j then some m else view e j)
  unfolding upsert_locked view
  view-upsert_locked r =
      let old = old_tags e m.id r in
      ground (
        arith,
        get-put e.cache m.id j m,
        get-remove e.deleted_ids m.id j,
        eq_iff m.id j,
        untagged-remove_tags m.id old e,
        untagged-add_tags m.id m.tags (swapped e m old),
      )

  pub view-delete_locked :
      (id : String) → view (delete_locked id m e) j ≡ (if id == j then none else view e j)
  unfolding delete_locked view
  view-delete_locked id = ground (
    arith,
    get-remove e.cache id j,
    get-put e.deleted_ids id j true,
    eq_iff id j,
    untagged-remove_tags id m.tags e,
  )

  pub view-add_runtime_memory :
      view (add_runtime_memory m e) j
      ≡ (if m.id == j then (if flag e.deleted_ids j then none else some m) else view e j)
  unfolding add_runtime_memory view
  view-add_runtime_memory =
      ground
        (arith, get-put e.cache m.id j m, eq_iff m.id j, untagged-add_tags m.id m.tags (filed e m))

-- On the live view, an upsert of a record under its id and a deletion are the assignment and the
-- removal of one key, and an insertion is the assignment except under a tombstone, where the record
-- stays hidden; every other id keeps its view.
pub writes-view :
    (e : Engine) (m : Memory) (r : Result Memory) (id j : String)
    → (view (upsert_locked r m e) j ≡ (if m.id == j then some m else view e j))
      × (view (delete_locked id m e) j ≡ (if id == j then none else view e j))
      × (view (add_runtime_memory m e) j
          ≡ (if m.id == j then (if flag e.deleted_ids j then none else some m) else view e j))
writes-view e m r id j =
    (view-upsert_locked e m j r, view-delete_locked e m j id, view-add_runtime_memory e m j)

-- A record that is deleted and then inserted again under its id is not shown, while an upsert of it
-- on its owner is shown.
pub recreated-hidden :
    (e : Engine) (old m : Memory) (r : Result Memory)
    → (view (add_runtime_memory m (delete_locked m.id old e)) m.id ≡ none)
      × (view (upsert_locked r m (delete_locked m.id old e)) m.id ≡ some m)
recreated-hidden e old m r = (
  ground (
    arith,
    view-add_runtime_memory (delete_locked m.id old e) m m.id,
    eq_iff m.id m.id,
    tombstone,
  ),
  ground (arith, view-upsert_locked (delete_locked m.id old e) m m.id r, eq_iff m.id m.id),
)
  where
    tombstone : flag (delete_locked m.id old e).deleted_ids m.id ≡ true
    tombstone =
        unfold delete_locked in
        ground (
          arith,
          untagged-remove_tags m.id old.tags e,
          get-put e.deleted_ids m.id m.id true,
          eq_iff m.id m.id,
        )
