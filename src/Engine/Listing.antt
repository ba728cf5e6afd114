-- ===== src/Engine/Listing.antt =====
-- Kernel/src/kernel.go, listTagLocal: the ids listed under a tag are those shown with that tag.
use memory_ai.Prelude.{
  String, ◌≡◌, sym, ap, ◌∙◌, Bool, true, false, ◌&&◌, ◌||◌, not, List, [], ◌∷◌, ◌++◌, ◌==◌, eq_iff,
  arith, contains, contains-append, if◌then◌else◌, Error, ok, err, Result-cases, inl, inr,
}
use memory_ai.Prelude.Table.{Table, flag, keys, contains-keys}
use memory_ai.Prelude.Text.{sort_strings, contains-sort_strings}
use memory_ai.Engine.{
  Engine, ids_of, list_stored, list_added, list_cached, cached_with, stored_or_empty,
  list_tag_local,
}
use memory_ai.Engine.View.{stored, view}
use memory_ai.Engine.Tags.{added, removed}
use memory_ai.Engine.Edits.{has_tag, tags_agree, IsConsistent}

module _ (e : Engine) (id : String) where
  contains-list_stored :
      (gone : Table Bool) (ids out : List String)
      → contains (list_stored e gone ids out) id ≡ (
          contains out id
          || (contains ids id && (not (flag e.deleted_ids id) && not (flag gone id))))
  unfolding list_stored contains
  contains-list_stored gone [] out = ground arith
  contains-list_stored gone (x ∷ ids) out =
      let next = if flag e.deleted_ids x || flag gone x then out else out ++ x ∷ [] in
      ground
        (arith, contains-list_stored gone ids next, contains-append out (x ∷ []) id, eq_iff x id)

  contains-list_added :
      (ids out : List String)
      → contains (list_added e ids out) id
        ≡ (contains out id || (contains ids id && not (flag e.deleted_ids id)))
  unfolding list_added contains
  contains-list_added [] out = ground arith
  contains-list_added (x ∷ ids) out =
      let next =
        if not (flag e.deleted_ids x) && not (contains out x) then out ++ x ∷ [] else out in
      ground (arith, contains-list_added ids next, contains-append out (x ∷ []) id, eq_iff x id)

  contains-list_cached :
      (tag : String) (ids out : List String)
      → contains (list_cached e tag ids out) id ≡ (
          contains out id
          || (contains ids id && (not (flag e.deleted_ids id) && cached_with e tag id)))
  unfolding list_cached contains
  contains-list_cached tag [] out = ground arith
  contains-list_cached tag (x ∷ ids) out =
      let next =
        if not (flag e.deleted_ids x) && (cached_with e tag x && not (contains out x))
        then out ++ x ∷ []
        else out in
      ground
        (arith, contains-list_cached tag ids next, contains-append out (x ∷ []) id, eq_iff x id)

-- The store's tag index lists the ids of the records that it holds with the tag; io.EOF stands for
-- the empty list.
pub record IsIndexed (e : Engine) : Type 0 where
  pub posted :
      (tag : String) (ids : List String)
      → stored_or_empty (e.store.tag_ids tag) ≡ ok ids
      → (id : String) → contains ids id ≡ has_tag (stored e id) tag

listed :
    (e : Engine) (tag id : String) (ids : List String)
    → contains
        (list_cached e tag (keys e.cache) (
          list_added e
            (keys (ids_of e.tag_added tag))
            (list_stored e (ids_of e.tag_removed tag) ids [])))
        id
      ≡ (not (flag e.deleted_ids id)
          && ((contains ids id && not (removed e id tag))
              || (added e id tag || cached_with e tag id)))
unfolding contains
listed e tag id ids =
    let one = list_stored e (ids_of e.tag_removed tag) ids [] in
    let two = list_added e (keys (ids_of e.tag_added tag)) one in
    ground (
      arith,
      contains-list_cached e id tag (keys e.cache) two,
      contains-list_added e id (keys (ids_of e.tag_added tag)) one,
      contains-list_stored e id (ids_of e.tag_removed tag) ids [],
      contains-keys e.cache id,
      contains-keys (ids_of e.tag_added tag) id,
    )

shown_with_tag :
    (e : Engine) (tag id : String) (stored_has : Bool)
    → tags_agree e id tag ≡ true
    → stored_has ≡ has_tag (stored e id) tag
    → (not (flag e.deleted_ids id)
        && ((stored_has && not (removed e id tag)) || (added e id tag || cached_with e tag id)))
      ≡ has_tag (view e id) tag
unfolding view tags_agree
shown_with_tag e tag id stored_has h p = ground arith

-- In a consistent body whose store's index is sound, the tag listing that succeeds contains exactly
-- the ids whose live view carries the tag, for every tag but the empty one.
pub list_tag_local-exact :
    (e : Engine) (tag : String) {out : List String}
    → IsConsistent e
    → IsIndexed e
    → (tag == "") ≡ false
    → list_tag_local e tag ≡ ok out
    → (id : String) → contains out id ≡ has_tag (view e id) tag
unfolding list_tag_local
list_tag_local-exact e tag {out} h ix named listing id =
    elim (Result-cases (stored_or_empty (e.store.tag_ids tag))) [
      | inr (x, p) ↦ absurd (failed x p)
      | inl (ids, p) ↦
          ap (λ o. contains o id) (sym (found ids p))
          ∙ contains-sort_strings _ id
          ∙ listed e tag id ids
          ∙ shown_with_tag e tag id (contains ids id) (h.tags id tag named) (ix.posted tag ids p id)
    ]
  where
    failed : (x : Error) → stored_or_empty (e.store.tag_ids tag) ≡ err x → ⊥
    failed x p = ground arith

    found :
        (ids : List String)
        → stored_or_empty (e.store.tag_ids tag) ≡ ok ids
        → sort_strings (
            list_cached e tag (keys e.cache) (
              list_added e
                (keys (ids_of e.tag_added tag))
                (list_stored e (ids_of e.tag_removed tag) ids [])))
          ≡ out
    found ids p = ground arith
