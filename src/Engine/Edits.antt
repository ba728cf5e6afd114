-- ===== src/Engine/Edits.antt =====
-- Kernel/src/kernel.go and fabric_write_runtime.go: the edits of a body keep its state consistent.
use memory_ai.Prelude.{
  String, ◌≡◌, Bool, true, false, ◌&&◌, ◌||◌, not, List, Option, none, some, ◌==◌, eq_iff, arith,
  contains, if◌then◌else◌, Result, Result-cases, inl, inr, Bool-cases, refl, ok, err, eof,
}
use memory_ai.Prelude.Text.{trim_space}
use memory_ai.Prelude.Table.{get, put, flag, get-put, get-remove}
use memory_ai.Model.{Memory}
use memory_ai.Engine.{
  Engine, remove_tags, resolve_live, install_page, resolve_id_local, cache_drop, add_runtime_memory,
  old_tags, upsert_locked, upsert_answer, upsert_explicit_memory_on_owner, delete_locked,
}
use memory_ai.Engine.View.{stored, view, IsCoherent}
use memory_ai.Engine.Tags.{
  added, removed, untagged-add_tags, untagged-remove_tags, added-add_tags, removed-add_tags,
  added-remove_tags, removed-remove_tags,
}

abbrev pub has_tag : Option Memory → String → Bool
has_tag none t = false
has_tag (some m) t = contains m.tags t

abbrev uncached_agree : Bool → Bool → Bool → Bool → Bool
uncached_agree d s a r = not a && (not s || (if d then r else not r))

abbrev cached_agree : Bool → Bool → Bool → Bool → Bool → Bool → Bool
cached_agree clean d c s a r =
    (not (s && not r) || c) && ((not a || c) && (not clean || (not d && uncached_agree d s a r)))

-- Neither dirty nor new.
abbrev is_clean : Engine → String → Bool
is_clean e id = not (flag e.dirty_ids id) && not (flag e.new_ids id)

-- The deltas of one id and tag, against the store and the cache: for a cached record they never
-- show a tag that it lacks, and a clean one is not deleted and has none; for any other id nothing
-- is added, and a stored tag is removed exactly where the id is deleted.
unfoldable pub tags_agree : Engine → String → String → Bool
tags_agree e id t =
    let s = has_tag (stored e id) t in
    elim (get e.cache id) [
      | some m ↦
          cached_agree (is_clean e id) (flag e.deleted_ids id) (contains m.tags t) s (added e id t)
            (removed e id t)
      | none ↦ uncached_agree (flag e.deleted_ids id) s (added e id t) (removed e id t)
    ]

pub record IsConsistent (e : Engine) : Type 0 where
  pub coherent : IsCoherent e
  pub tags : (id t : String) → (t == "") ≡ false → tags_agree e id t ≡ true

-- One edit of a body by the kernel. A record is inserted only where nothing is cached or shown,
-- and is deleted as it is shown.
pub data Edit : Engine → Engine → Type 0 where
  resolve : (e : Engine) (id : String) → Edit e (resolve_id_local e id).1
  drop : (e : Engine) (id : String) → Edit e (cache_drop id e)
  insert :
      (e : Engine) (m : Memory)
      → get e.cache m.id ≡ none
      → view e m.id ≡ none
      → Edit e (add_runtime_memory m e)
  upsert : (e : Engine) (q : Memory) → Edit e (upsert_explicit_memory_on_owner q e).1
  delete :
      (e : Engine) (id : String) (m : Memory) → view e id ≡ some m → Edit e (delete_locked id m e)

-- A body with the record m filed as new, before its tags.
abbrev pub filed : Engine → Memory → Engine
filed e m = record e {
  cache = put e.cache m.id m;
  new_ids = put e.new_ids m.id true;
  dirty_ids = put e.dirty_ids m.id true;
  dirty = true;
}

resolve-IsCoherent :
    (e : Engine) (id : String) → IsCoherent e → IsCoherent (resolve_id_local e id).1
unfolding resolve_id_local resolve_live install_page
resolve-IsCoherent e id h = record {
  clean = λ j m p q r. elim (Result-cases (e.store.get_id id)) [
    | inl (x, s) ↦ ground (arith, h.clean j m, get-put e.cache id j x, eq_iff id j)
    | inr (x, s) ↦ ground (arith, h.clean j m)
  ];
}

resolve-tags :
    (e : Engine) (id j t : String)
    → tags_agree e j t ≡ true
    → tags_agree (resolve_id_local e id).1 j t ≡ true
unfolding resolve_id_local resolve_live install_page tags_agree
resolve-tags e id j t h = elim (Result-cases (e.store.get_id id)) [
  | inl (x, s) ↦ ground (arith, get-put e.cache id j x, eq_iff id j)
  | inr (x, s) ↦ ground arith
]

drop-IsCoherent : (e : Engine) (id : String) → IsCoherent e → IsCoherent (cache_drop id e)
unfolding cache_drop
drop-IsCoherent e id h = record {
  clean = λ j m p q r. ground (arith, h.clean j m, get-remove e.cache id j, eq_iff id j);
}

drop-tags :
    (e : Engine) (id j t : String)
    → tags_agree e j t ≡ true
    → tags_agree (cache_drop id e) j t ≡ true
unfolding cache_drop tags_agree
drop-tags e id j t h = ground (arith, get-remove e.cache id j, eq_iff id j)

insert-IsCoherent : (e : Engine) (m : Memory) → IsCoherent e → IsCoherent (add_runtime_memory m e)
unfolding add_runtime_memory
insert-IsCoherent e m h = record {
  clean = λ j x p q r. ground (
    arith,
    h.clean j x,
    get-put e.cache m.id j m,
    get-put e.new_ids m.id j true,
    get-put e.dirty_ids m.id j true,
    eq_iff m.id j,
    untagged-add_tags m.id m.tags (filed e m),
  );
}

insert-tags :
    (e : Engine) (m : Memory) (j t : String)
    → (t == "") ≡ false
    → get e.cache m.id ≡ none
    → view e m.id ≡ none
    → tags_agree e j t ≡ true
    → tags_agree (add_runtime_memory m e) j t ≡ true
unfolding add_runtime_memory tags_agree view
insert-tags e m j t n u v h = ground (
  arith,
  get-put e.cache m.id j m,
  get-put e.new_ids m.id j true,
  get-put e.dirty_ids m.id j true,
  eq_iff m.id j,
  untagged-add_tags m.id m.tags (filed e m),
  added-add_tags m.id j t n m.tags (filed e m),
  removed-add_tags m.id j t n m.tags (filed e m),
)

-- A body with the record q in its cache, its old tags withdrawn and its own not yet added.
abbrev pub swapped : Engine → Memory → List String → Engine
swapped e q old = let e₁ = remove_tags q.id old e in record e₁ { cache = put e₁.cache q.id q }

upsert-IsCoherent :
    (e : Engine) (q : Memory) (r : Result Memory) → IsCoherent e → IsCoherent (upsert_locked r q e)
unfolding upsert_locked
upsert-IsCoherent e q r h = record {
  clean = λ j x p u v.
      let old = old_tags e q.id r in
      ground (
        arith,
        h.clean j x,
        get-put e.cache q.id j q,
        get-put e.dirty_ids q.id j true,
        get-put e.new_ids q.id j true,
        get-remove e.new_ids q.id j,
        eq_iff q.id j,
        untagged-remove_tags q.id old e,
        untagged-add_tags q.id q.tags (swapped e q old),
      );
}

upsert-tags :
    (e : Engine) (q : Memory) (j t : String)
    → (t == "") ≡ false
    → tags_agree e j t ≡ true
    → tags_agree (upsert_locked (e.store.get_id q.id) q e) j t ≡ true
unfolding upsert_locked tags_agree old_tags
upsert-tags e q j t n h =
    let old = old_tags e q.id (e.store.get_id q.id) in
    ground (
      arith,
      get-put e.cache q.id j q,
      get-put e.dirty_ids q.id j true,
      get-remove e.deleted_ids q.id j,
      eq_iff q.id j,
      get-put e.new_ids q.id j true,
      get-remove e.new_ids q.id j,
      untagged-remove_tags q.id old e,
      untagged-add_tags q.id q.tags (swapped e q old),
      added-remove_tags q.id j t n old e,
      removed-remove_tags q.id j t n old e,
      added-add_tags q.id j t n q.tags (swapped e q old),
      removed-add_tags q.id j t n q.tags (swapped e q old),
    )

delete-IsCoherent :
    (e : Engine) (id : String) (m : Memory) → IsCoherent e → IsCoherent (delete_locked id m e)
unfolding delete_locked
delete-IsCoherent e id m h = record {
  clean = λ j x p q r. ground (
    arith,
    h.clean j x,
    get-remove e.cache id j,
    get-remove e.new_ids id j,
    get-remove e.dirty_ids id j,
    eq_iff id j,
    untagged-remove_tags id m.tags e,
  );
}

delete-tags :
    (e : Engine) (id : String) (m : Memory) (j t : String)
    → (t == "") ≡ false
    → view e id ≡ some m
    → tags_agree e j t ≡ true
    → tags_agree (delete_locked id m e) j t ≡ true
unfolding delete_locked tags_agree view
delete-tags e id m j t n v h = ground (
  arith,
  get-remove e.cache id j,
  get-remove e.new_ids id j,
  get-remove e.dirty_ids id j,
  get-put e.deleted_ids id j true,
  eq_iff id j,
  untagged-remove_tags id m.tags e,
  added-remove_tags id j t n m.tags e,
  removed-remove_tags id j t n m.tags e,
)

upsert-keeps :
    (e : Engine) (q : Memory)
    → IsConsistent e
    → IsConsistent (upsert_explicit_memory_on_owner q e).1
unfolding upsert_explicit_memory_on_owner
upsert-keeps e q h = elim (Bool-cases (trim_space q.id == "")) [
  | inl blank ↦ rw blank h
  | inr named ↦ rw named (written (e.store.get_id q.id) refl)
]
  where
    changed : IsConsistent (upsert_locked (e.store.get_id q.id) q e)
    changed = record {
      coherent = upsert-IsCoherent e q (e.store.get_id q.id) h.coherent;
      tags = λ j t n. upsert-tags e q j t n (h.tags j t n);
    }

    written : (r : Result Memory) → e.store.get_id q.id ≡ r → IsConsistent (upsert_answer r q e).1
    written (ok old) p = rw p at changed
    written (err eof) p = rw p at changed
    written (err _) p = h

-- Every edit of the kernel, failing or not, keeps a body consistent.
pub Edit-IsConsistent : {e e' : Engine} → Edit e e' → IsConsistent e → IsConsistent e'
Edit-IsConsistent (resolve e id) h = record {
  coherent = resolve-IsCoherent e id h.coherent;
  tags = λ j t n. resolve-tags e id j t (h.tags j t n);
}
Edit-IsConsistent (drop e id) h = record {
  coherent = drop-IsCoherent e id h.coherent;
  tags = λ j t n. drop-tags e id j t (h.tags j t n);
}
Edit-IsConsistent (insert e m u v) h = record {
  coherent = insert-IsCoherent e m h.coherent;
  tags = λ j t n. insert-tags e m j t n u v (h.tags j t n);
}
Edit-IsConsistent (upsert e q) h = upsert-keeps e q h
Edit-IsConsistent (delete e id m v) h = record {
  coherent = delete-IsCoherent e id m h.coherent;
  tags = λ j t n. delete-tags e id m j t n v (h.tags j t n);
}

-- A history of edits.
pub data Edits (e : Engine) : Engine → Type 0 where
  start : Edits e e
  then_edit : {a b : Engine} → Edits e a → Edit a b → Edits e b

-- From a consistent body, every history of edits leads to a consistent one.
pub Edits-IsConsistent : {e e' : Engine} → IsConsistent e → Edits e e' → IsConsistent e'
Edits-IsConsistent h start = h
Edits-IsConsistent h (then_edit hs s) = Edit-IsConsistent s (Edits-IsConsistent h hs)
