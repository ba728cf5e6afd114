-- ===== src/Fabric/Creation.antt =====
-- Kernel/src/fabric_write_runtime.go, shard_runtime.go: a bounded upsert shows what it wrote.
use memory_ai.Prelude.{
  ap, String, ◌≡◌, refl, ◌∙◌, false, some, ◌==◌, eq_iff, arith, Option-cases, Result-cases,
  Bool-cases, inl, inr, Result, ok, err, eof, unavailable, side_effect, failure,
}
use memory_ai.Model.{Memory}
use memory_ai.Engine.{Engine, Fabric, upsert_explicit_memory_on_owner, upsert_answer}
use memory_ai.Engine.View.{view}
use memory_ai.Engine.Effects.{view-upsert_locked}
use memory_ai.Fabric.{
  LocalFabric, Limits, mounted_writable_shard, ensure_memory_record_within_physical_limit,
  place_runtime_memory_locked, create_explicit, role_at, upsert_resolved,
  upsert_explicit_memory_bounded, resolve_local_fabric_memory,
}
use memory_ai.Fabric.Resolve.{shows, resolve_local_fabric_memory_unique}
use memory_ai.Fabric.Writes.{at_owner-OnlyAt, upsert-Keeps, create-OnlyAt, mounted-bodies}
use memory_ai.Fabric.Outcome.{buried, at_owner-ok, at_owner-added, resolve-buried}

upsert_answer-shown :
    (r : Result Memory) (q : Memory) (e : Engine)
    → (upsert_answer r q e).0 ≡ ok tt
    → view (upsert_answer r q e).1 q.id ≡ some q
unfolding upsert_answer
upsert_answer-shown (ok old) q e h =
    ground (arith, view-upsert_locked e q q.id (ok old), eq_iff q.id q.id)
upsert_answer-shown (err eof) q e h =
    ground (arith, view-upsert_locked e q q.id (err eof), eq_iff q.id q.id)
upsert_answer-shown (err unavailable) q e h = ground arith
upsert_answer-shown (err (side_effect _)) q e h = ground arith
upsert_answer-shown (err (failure _)) q e h = ground arith

upsert_on_owner-shown :
    (q : Memory) (e : Engine)
    → (upsert_explicit_memory_on_owner q e).0 ≡ ok tt
    → view (upsert_explicit_memory_on_owner q e).1 q.id ≡ some q
unfolding upsert_explicit_memory_on_owner
upsert_on_owner-shown q e h = ground (arith, upsert_answer-shown (e.store.get_id q.id) q e)

-- Some body shows the record.
abbrev pub IsShown : Fabric → Memory → Type 0
IsShown bodies m = (p : String) × (shows bodies p m.id ≡ some m)

module _ (limits : Limits) where
  place-IsShown :
      (m : Memory) (f : LocalFabric)
      → ((p : String) → buried f.bodies p m.id ≡ false)
      → (place_runtime_memory_locked limits m f).0 ≡ ok tt
      → IsShown (place_runtime_memory_locked limits m f).1.bodies m
  unfolding place_runtime_memory_locked
  place-IsShown m f free h =
      let target = mounted_writable_shard limits f in
      elim (Result-cases (ensure_memory_record_within_physical_limit limits m)) [
        | inr (x, r) ↦ ground arith
        | inl (x, r) ↦ elim (Option-cases target.0) [
          | inl full ↦ ground arith
          | inr (p, to) ↦
              let clear : buried target.1.bodies p m.id ≡ false =
                ap (λ b. buried b p m.id) (mounted-bodies limits f) ∙ free p in
              (p, ground (arith, at_owner-added limits p m target.1 clear))
        ]
      ]

  create-IsShown :
      (m : Memory) (f : LocalFabric)
      → ((p : String) → buried f.bodies p m.id ≡ false)
      → (create_explicit limits m f).0 ≡ ok tt
      → IsShown (create_explicit limits m f).1.bodies m
  unfolding create_explicit
  create-IsShown m f free h = elim (Bool-cases (role_at f f.root == "core")) [
    | inl core ↦
        let (p, shown) = place-IsShown m f free (ground arith) in (p, ground (arith, shown))
    | inr other ↦ (f.root, ground (arith, at_owner-added limits f.root m f (free f.root)))
  ]

  upsert_resolved-IsShown :
      (q : Memory) (r : Result (String × Memory)) (f : LocalFabric)
      → ((p : String) → buried f.bodies p q.id ≡ false)
      → (upsert_resolved limits q r f).0 ≡ ok tt
      → IsShown (upsert_resolved limits q r f).1.bodies q
  unfolding upsert_resolved
  upsert_resolved-IsShown q (ok (owner, m)) f free h =
      let (e, there, done, shown) =
        at_owner-ok owner (upsert_explicit_memory_on_owner q) f q.id (ground arith) in
      (owner, ground (arith, shown, upsert_on_owner-shown q e done))
  upsert_resolved-IsShown q (err eof) f free h = create-IsShown q f free h
  upsert_resolved-IsShown q (err unavailable) f free h = ground arith
  upsert_resolved-IsShown q (err (side_effect _)) f free h = ground arith
  upsert_resolved-IsShown q (err (failure _)) f free h = ground arith

  upsert_resolved-others :
      (q : Memory) (r : Result (String × Memory)) (f : LocalFabric) (p j : String)
      → (q.id == j) ≡ false
      → shows (upsert_resolved limits q r f).1.bodies p j ≡ shows f.bodies p j
  unfolding upsert_resolved
  upsert_resolved-others q (ok (owner, m)) f p j h = ground (
    arith,
    at_owner-OnlyAt owner q.id (upsert_explicit_memory_on_owner q) f (upsert-Keeps q) p j
        (ground arith),
  )
  upsert_resolved-others q (err eof) f p j h = (create-OnlyAt limits q f).1 p j (ground arith)
  upsert_resolved-others q (err unavailable) f p j h = refl
  upsert_resolved-others q (err (side_effect _)) f p j h = refl
  upsert_resolved-others q (err (failure _)) f p j h = refl

  -- An upsert that succeeds shows the copy that it wrote, provided that no body has a tombstone for
  -- its id, and it changes the view of no other id, whether it succeeds or not.
  pub upsert_explicit_memory_bounded-IsShown :
      (m : Memory) (f : LocalFabric)
      → (((p : String) → buried f.bodies p (limits.copy m).id ≡ false)
          → (upsert_explicit_memory_bounded limits m f).0 ≡ ok tt
          → IsShown (upsert_explicit_memory_bounded limits m f).1.bodies (limits.copy m))
        × ((p j : String)
            → ((limits.copy m).id == j) ≡ false
            → shows (upsert_explicit_memory_bounded limits m f).1.bodies p j ≡ shows f.bodies p j)
  unfolding upsert_explicit_memory_bounded
  upsert_explicit_memory_bounded-IsShown m f =
      let q = limits.copy m in
      let r = resolve_local_fabric_memory q.id f in
      elim (Result-cases (ensure_memory_record_within_physical_limit limits m)) [
        | inr (x, e) ↦ (λ free h. ground arith, λ p j h. ground arith)
        | inl (x, e) ↦ (
          λ free h.
              let (p, shown) =
                upsert_resolved-IsShown q r.0 r.1 (λ p. resolve-buried q.id f p q.id ∙ free p)
                  (ground arith) in
              (p, ground (arith, shown)),
          λ p j h. ground (
            arith,
            upsert_resolved-others q r.0 r.1 p j h,
            (resolve_local_fabric_memory_unique q.id f).2 p j,
          ),
        )
      ]
