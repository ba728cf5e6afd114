-- ===== src/Fabric/Outcome.antt =====
-- Kernel/src/fabric_write_runtime.go: what a bounded upsert and a bounded deletion do to what the
-- bodies show.
use memory_ai.Prelude.{
  String, ◌≡◌, refl, ◌∙◌, false, none, some, ◌==◌, eq_iff, arith, Option, List, [], ◌∷◌,
  Option-cases, Result-cases, Bool-cases, Bool, inl, inr, Result, ok, err, Error,
}
use memory_ai.Prelude.Table.{get, put, flag, get-put}
use memory_ai.Prelude.Text.{trim_space}
use memory_ai.Model.{Memory}
use memory_ai.Engine.{Engine, Fabric, resolve_id_local, resolve_live, install_page, delete_locked}
use memory_ai.Engine.View.{view}
use memory_ai.Engine.Effects.{view-delete_locked, view-add_runtime_memory}
use memory_ai.Fabric.{
  LocalFabric, Limits, at_owner, ensure_memory_record_within_physical_limit,
  add_runtime_memory_checked, next_found, resolve_each, local_fabric_engines, delete_resolved,
  delete_explicit_memory_bounded, resolve_local_fabric_memory,
}
use memory_ai.Fabric.Resolve.{shows, resolve_local_fabric_memory_unique}
use memory_ai.Fabric.Writes.{at_owner-OnlyAt, delete-Keeps, Answers, resolve-Answers}

-- A write to one body that succeeds.
pub at_owner-ok :
    (p : String) (write : Engine → Result (Unit {0}) × Engine) (f : LocalFabric) (j : String)
    → (at_owner p write f).0 ≡ ok tt
    → (e : Engine) × (get f.bodies p ≡ some e)
      × ((write e).0 ≡ ok tt)
      × (shows (at_owner p write f).1.bodies p j ≡ view (write e).1 j)
at_owner-ok p write f j h = elim (Option-cases (get f.bodies p)) [
  | inl away ↦ ground arith
  | inr (e, there) ↦
      (e, there, ground arith, ground (arith, get-put f.bodies p p (write e).1, eq_iff p p))
]

delete_resolved-shows :
    (id : String) (r : Result (String × Memory)) (f : LocalFabric)
    → Answers id r f.bodies
    → ((delete_resolved id r f).0 ≡ ok tt
        → (q : String) → shows (delete_resolved id r f).1.bodies q id ≡ none)
      × ((q j : String)
          → (id == j) ≡ false
          → shows (delete_resolved id r f).1.bodies q j ≡ shows f.bodies q j)
      × ((x : Error)
          → (delete_resolved id r f).0 ≡ err x
          → (q j : String) → shows (delete_resolved id r f).1.bodies q j ≡ shows f.bodies q j)
unfolding delete_resolved
delete_resolved-shows id (err y) f a = (λ h q. ground arith, λ q j h. refl, λ x h q j. refl)
delete_resolved-shows id (ok (owner, m)) f a = (
  λ h q.
      let write : Engine → Result (Unit {0}) × Engine = λ e. (ok tt, delete_locked id m e) in
      elim (Bool-cases (owner == q)) [
        | inl here ↦
            let (e, there, done, shown) = at_owner-ok owner write f id (ground arith) in
            ground (arith, shown, view-delete_locked e m id id, eq_iff owner q, eq_iff id id)
        | inr away ↦ ground (
          arith,
          at_owner-OnlyAt owner id write f (delete-Keeps id m) q id (ground arith),
          a.owned owner m refl q (λ z. ground (arith, eq_iff owner q)),
        )
      ],
  λ q j h. ground (
    arith,
    at_owner-OnlyAt owner id (λ e. (ok tt, delete_locked id m e)) f (delete-Keeps id m) q j
        (ground arith),
  ),
  λ x h q j. elim (Option-cases (get f.bodies owner)) [
    | inl none_there ↦ ground arith
    | inr (e, there) ↦ ground arith
  ],
)

-- A deletion that succeeds leaves no body that shows the id, and a deletion that fails changes no
-- view; either way every other id is shown as before. The id has no blanks around it.
pub delete_explicit_memory_bounded-gone :
    (id : String) (f : LocalFabric)
    → trim_space id ≡ id
    → ((delete_explicit_memory_bounded id f).0 ≡ ok tt
        → (q : String) → shows (delete_explicit_memory_bounded id f).1.bodies q id ≡ none)
      × ((q j : String)
          → (id == j) ≡ false
          → shows (delete_explicit_memory_bounded id f).1.bodies q j ≡ shows f.bodies q j)
      × ((x : Error)
          → (delete_explicit_memory_bounded id f).0 ≡ err x
          → (q j : String)
          → shows (delete_explicit_memory_bounded id f).1.bodies q j ≡ shows f.bodies q j)
unfolding delete_explicit_memory_bounded
delete_explicit_memory_bounded-gone id f trimmed =
    let r = resolve_local_fabric_memory id f in
    let (gone, others, failed) = delete_resolved-shows id r.0 r.1 (resolve-Answers id f trimmed) in
    let (_, _, same) = resolve_local_fabric_memory_unique id f in
    (gone, λ q j h. others q j h ∙ same q j, λ x h q j. failed x h q j ∙ same q j)

-- Whether the body at a path has a tombstone for an id.
abbrev pub buried : Fabric → String → String → Bool
buried bodies p id = elim (get bodies p) [ none ↦ false | some e ↦ flag e.deleted_ids id ]

resolve_id_local-deleted :
    (e : Engine) (id : String) → (resolve_id_local e id).1.deleted_ids ≡ e.deleted_ids
unfolding resolve_id_local resolve_live install_page
resolve_id_local-deleted e id = elim (Result-cases (e.store.get_id id)) [
  | inl (m, r) ↦ ground arith
  | inr (x, r) ↦ ground arith
]

resolve_each-buried :
    (id : String) (ps : List String) (found : Option (String × Memory)) (bodies : Fabric)
    (q j : String)
    → buried (resolve_each id ps found bodies).1 q j ≡ buried bodies q j
unfolding resolve_each
resolve_each-buried id [] found bodies q j = refl
resolve_each-buried id (p ∷ ps) found bodies q j = elim (Option-cases (get bodies p)) [
  | inl out ↦ ground (arith, resolve_each-buried id ps found bodies q j)
  | inr (e, there) ↦
      let e' = (resolve_id_local e id).1 in
      let now : buried (put bodies p e') q j ≡ buried bodies q j =
        ground (arith, get-put bodies p q e', eq_iff p q, resolve_id_local-deleted e id) in
      elim (Result-cases (next_found p found (resolve_id_local e id).0)) [
        | inl (found', n) ↦
            ground (arith, now, resolve_each-buried id ps found' (put bodies p e') q j)
        | inr (x, n) ↦ ground (arith, now)
      ]
]

pub resolve-buried :
    (id : String) (f : LocalFabric) (q j : String)
    → buried (resolve_local_fabric_memory id f).1.bodies q j ≡ buried f.bodies q j
unfolding resolve_local_fabric_memory
resolve-buried id f q j =
    ground (arith, resolve_each-buried (trim_space id) (local_fabric_engines f) none f.bodies q j)

module _ (limits : Limits) where
  add_runtime_memory_checked-shown :
      (m : Memory) (e : Engine)
      → flag e.deleted_ids m.id ≡ false
      → (add_runtime_memory_checked limits m e).0 ≡ ok tt
      → view (add_runtime_memory_checked limits m e).1 m.id ≡ some m
  unfolding add_runtime_memory_checked
  add_runtime_memory_checked-shown m e free h =
      elim (Result-cases (ensure_memory_record_within_physical_limit limits m)) [
        | inl (x, r) ↦ ground (arith, view-add_runtime_memory e m m.id, eq_iff m.id m.id)
        | inr (x, r) ↦ ground arith
      ]

  pub at_owner-added :
      (p : String) (m : Memory) (f : LocalFabric)
      → buried f.bodies p m.id ≡ false
      → (at_owner p (add_runtime_memory_checked limits m) f).0 ≡ ok tt
      → shows (at_owner p (add_runtime_memory_checked limits m) f).1.bodies p m.id ≡ some m
  at_owner-added p m f free h =
      let (e, there, done, shown) = at_owner-ok p (add_runtime_memory_checked limits m) f m.id h in
      shown ∙ add_runtime_memory_checked-shown m e (ground arith) done
