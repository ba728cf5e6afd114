-- ===== src/Engine/Tests.antt =====
-- A body with one stored record, and the theorems about bodies at it.
use memory_ai.Prelude.{
  String, ◌≡◌, refl, true, ◌==◌, [], ◌∷◌, none, some, arith, eq_iff, contains, if◌then◌else◌, ok,
  err, eof,
}
use memory_ai.Prelude.Table.{get, put, remove, flag}
use memory_ai.Prelude.Text.{trim_space, sort_strings, insert_sorted}
use memory_ai.Model.{Memory}
use memory_ai.Samples.{note, body}
use memory_ai.Engine.{
  add_runtime_memory, delete_locked, Engine, resolve_live, old_tags, add_tags, remove_tags,
  tag_delta_add_locked, tag_delta_remove_locked, resolve_id_local, install_page, cache_drop,
  list_tag_local, list_stored, list_added, list_cached, stored_or_empty, upsert_locked,
  upsert_explicit_memory_on_owner,
}
use memory_ai.Engine.View.{
  view, structure, resolve_id_local-view, install_page-safe, cache_drop-view,
}
use memory_ai.Engine.Effects.{writes-view, recreated-hidden}
use memory_ai.Engine.Listing.{list_tag_local-exact}
use memory_ai.Engine.Edits.{
  has_tag, tags_agree, IsConsistent, resolve, upsert, start, then_edit, Edits-IsConsistent,
}
use memory_ai.Engine.Listing.{IsIndexed}

body-IsConsistent : IsConsistent body
unfolding tags_agree get
body-IsConsistent = record {
  coherent = record { clean = λ id m p q r. cc };
  tags = λ id t n. ground arith;
}

body-IsIndexed : IsIndexed body
unfolding stored_or_empty contains
body-IsIndexed = record {
  posted = λ tag ids p id. ground (arith, eq_iff "note" id, eq_iff "memory" tag);
}

resolve_id_local-view_example :
    ((m : Memory)
      → ((resolve_id_local body "note").0 ≡ ok m → view body "note" ≡ some m)
        × (view body "note" ≡ some m → (resolve_id_local body "note").0 ≡ ok m))
    × ((j : String) → view (resolve_id_local body "note").1 j ≡ view body j)
resolve_id_local-view_example = resolve_id_local-view body "note"

-- The stored record is paged in.
abbrev paged : Engine
paged = (resolve_id_local body "note").1

install_page-safe_example :
    ((x : Memory)
      → get paged.cache "note" ≡ some x
      → get (install_page paged "other" note).1.cache "note" ≡ some x)
    × ((flag paged.deleted_ids "note" ≡ true)
        → view (install_page paged "other" note).1 "note" ≡ none)
    × ((flag paged.deleted_ids "other" ≡ true) → (install_page paged "other" note).1 ≡ paged)
install_page-safe_example = install_page-safe paged "other" note "note"

paged-IsConsistent : IsConsistent paged
paged-IsConsistent = Edits-IsConsistent body-IsConsistent (then_edit start (resolve body "note"))

cache_drop-view_example :
    structure (view (cache_drop "note" paged) "note") ≡ structure (view paged "note")
cache_drop-view_example = cache_drop-view paged "note" "note" paged-IsConsistent.coherent

abbrev retagged : Memory
retagged = record note { tags = "topic" ∷ [] }

abbrev edited : Engine
edited = (upsert_explicit_memory_on_owner retagged paged).1

Edits-IsConsistent_example : IsConsistent edited
Edits-IsConsistent_example =
    Edits-IsConsistent body-IsConsistent
      (then_edit (then_edit start (resolve body "note")) (upsert paged retagged))

edited_topics : list_tag_local edited "topic" ≡ ok ("note" ∷ [])
unfolding list_tag_local list_stored list_added list_cached sort_strings insert_sorted
    resolve_id_local resolve_live install_page upsert_explicit_memory_on_owner upsert_locked
    old_tags add_tags remove_tags tag_delta_add_locked tag_delta_remove_locked get put remove
    contains trim_space
edited_topics = refl

edited-IsIndexed : IsIndexed edited
unfolding stored_or_empty contains resolve_id_local resolve_live install_page get put remove
    upsert_explicit_memory_on_owner upsert_locked old_tags add_tags remove_tags tag_delta_add_locked
    tag_delta_remove_locked trim_space
edited-IsIndexed = record {
  posted = λ tag ids p id. ground (arith, eq_iff "note" id, eq_iff "memory" tag);
}

list_tag_local-exact_example : contains ("note" ∷ []) "note" ≡ has_tag (view edited "note") "topic"
list_tag_local-exact_example =
    list_tag_local-exact edited "topic" Edits-IsConsistent_example edited-IsIndexed refl
      edited_topics "note"

writes-view_example :
    (view (upsert_locked (err eof) retagged paged) "note"
      ≡ (if "note" == "note" then some retagged else view paged "note"))
    × (view (delete_locked "note" retagged paged) "note"
        ≡ (if "note" == "note" then none else view paged "note"))
    × (view (add_runtime_memory retagged paged) "note" ≡ (
        if "note" == "note"
        then (if flag paged.deleted_ids "note" then none else some retagged)
        else view paged "note"))
writes-view_example = writes-view paged retagged (err eof) "note" "note"

recreated-hidden_example :
    (view (add_runtime_memory retagged (delete_locked "note" note paged)) "note" ≡ none)
    × (view (upsert_locked (ok note) retagged (delete_locked "note" note paged)) "note"
        ≡ some retagged)
recreated-hidden_example = recreated-hidden paged note retagged (ok note)
