-- ===== src/Fabric/Writes.antt =====
-- Kernel/src/fabric_write_runtime.go, shard_runtime.go: no write puts an id into two bodies.
use mathlib.Core.Path.{subst}
use mathlib.Core.Bool.{false≢true}
use memory_ai.Prelude.{
  ap, String, ◌≡◌, ◌≢◌, refl, sym, ◌∙◌, false, ◌&&◌, none, some, ◌==◌, eq_iff, arith, Option-cases,
  Result-cases, Bool-cases, inl, inr, Result, ok, err, eof, unavailable, side_effect, failure,
}
use memory_ai.Prelude.Table.{get, get-put}
use memory_ai.Model.{Memory}
use memory_ai.Engine.{Engine, Fabric, upsert_answer, upsert_explicit_memory_on_owner, delete_locked}
use memory_ai.Engine.View.{view}
use memory_ai.Engine.Effects.{view-upsert_locked, view-delete_locked, view-add_runtime_memory}
use memory_ai.Fabric.{
  LocalFabric, Limits, at_owner, mounted_writable_shard, first_taking, spaces,
  ensure_memory_record_within_physical_limit, add_runtime_memory_checked,
  place_runtime_memory_locked, create_explicit, role_at,
}
use memory_ai.Fabric.Resolve.{shows, resolve_local_fabric_memory_unique}
use memory_ai.Prelude.Text.{trim_space}
use memory_ai.Fabric.{upsert_resolved, upsert_explicit_memory_bounded, resolve_local_fabric_memory}

-- Each id is shown by one body at most.
pub record IsUnique (bodies : Fabric) : Type 0 where
  pub once :
      (p q id : String) (m n : Memory)
      → shows bodies p id ≡ some m
      → shows bodies q id ≡ some n
      → p ≡ q

-- Only what the body at p shows under i may differ.
abbrev pub OnlyAt : String → String → Fabric → Fabric → Type 0
OnlyAt p i bodies bodies' =
    (q j : String) → (p == q && i == j) ≡ false → shows bodies' q j ≡ shows bodies q j

pub IsUnique-OnlyAt :
    (p i : String) {bodies bodies' : Fabric}
    → OnlyAt p i bodies bodies'
    → ((q : String) → q ≢ p → shows bodies q i ≡ none)
    → IsUnique bodies
    → IsUnique bodies'
IsUnique-OnlyAt p i {bodies} {bodies'} only alone u = record {
  once = λ q r j m n h k. elim (Bool-cases (i == j)) [
    | inl same ↦
        let here : (s : String) (x : Memory) → shows bodies' s j ≡ some x → s ≡ p = λ s x e.
          elim (Bool-cases (p == s)) [
            | inl at ↦ sym ((eq_iff p s).0 at)
            | inr off ↦ ground (
              arith,
              only s j (ground arith),
              alone s (λ z. ground (arith, eq_iff p s)),
              eq_iff i j,
            )
          ] in
        here q m h ∙ sym (here r n k)
    | inr other ↦
        u.once q r j m n (sym (only q j (ground arith)) ∙ h) (sym (only r j (ground arith)) ∙ k)
  ];
}

-- A write to one body that keeps the view of every other id.
pub Keeps : String → (Engine → Result (Unit {0}) × Engine) → Type 0
Keeps i write = (e : Engine) (j : String) → (i == j) ≡ false → view (write e).1 j ≡ view e j

pub at_owner-OnlyAt :
    (p i : String) (write : Engine → Result (Unit {0}) × Engine) (f : LocalFabric)
    → Keeps i write
    → OnlyAt p i f.bodies (at_owner p write f).1.bodies
unfolding Keeps
at_owner-OnlyAt p i write f k q j h = elim (Option-cases (get f.bodies p)) [
  | inl away ↦ ground arith
  | inr (e, there) ↦ ground (arith, get-put f.bodies p q (write e).1, eq_iff p q, k e j)
]

upsert_answer-view :
    (r : Result Memory) (q : Memory) (e : Engine) (j : String)
    → (q.id == j) ≡ false
    → view (upsert_answer r q e).1 j ≡ view e j
unfolding upsert_answer
upsert_answer-view (ok old) q e j h = ground (arith, view-upsert_locked e q j (ok old))
upsert_answer-view (err eof) q e j h = ground (arith, view-upsert_locked e q j (err eof))
upsert_answer-view (err unavailable) q e j h = refl
upsert_answer-view (err (side_effect _)) q e j h = refl
upsert_answer-view (err (failure _)) q e j h = refl

pub upsert-Keeps : (q : Memory) → Keeps q.id (upsert_explicit_memory_on_owner q)
unfolding Keeps upsert_explicit_memory_on_owner
upsert-Keeps q e j h = ground (arith, upsert_answer-view (e.store.get_id q.id) q e j h)

pub delete-Keeps : (id : String) (m : Memory) → Keeps id (λ e. (ok tt, delete_locked id m e))
unfolding Keeps
delete-Keeps id m e j h = ground (arith, view-delete_locked e m j id)

-- A resolution's answer for the id i, in the bodies that it leaves.
pub record Answers (i : String) (r : Result (String × Memory)) (bodies : Fabric) : Type 0 where
  pub owned :
      (o : String) (m : Memory) → r ≡ ok (o, m) → (q : String) → q ≢ o → shows bodies q i ≡ none
  pub missing : r ≡ err eof → i ≢ "" → (q : String) → shows bodies q i ≡ none

pub resolve-Answers :
    (id : String) (f : LocalFabric)
    → trim_space id ≡ id
    → Answers id (resolve_local_fabric_memory id f).0 (resolve_local_fabric_memory id f).1.bodies
resolve-Answers id f trimmed =
    let (found, absent, same) = resolve_local_fabric_memory_unique id f in
    record {
      owned = λ o m e q ne. same q id ∙ ap (shows f.bodies q) (sym trimmed) ∙ (found o m e).1 q ne;
      missing = λ e some_id q. elim (absent e) [
        | inl blank ↦ absurd (some_id (sym trimmed ∙ blank))
        | inr none_shows ↦ same q id ∙ ap (shows f.bodies q) (sym trimmed) ∙ none_shows q
      ];
    }

-- A lookup keeps it too.
resolve-IsUnique :
    (id : String) (f : LocalFabric)
    → IsUnique f.bodies
    → IsUnique (resolve_local_fabric_memory id f).1.bodies
resolve-IsUnique id f u = record {
  once = λ p q j m n h k.
      let (_, _, same) = resolve_local_fabric_memory_unique id f in
      u.once p q j m n (sym (same p j) ∙ h) (sym (same q j) ∙ k);
}

module _ (limits : Limits) where
  add-Keeps : (m : Memory) → Keeps m.id (add_runtime_memory_checked limits m)
  unfolding Keeps add_runtime_memory_checked
  add-Keeps m e j h = elim (Result-cases (ensure_memory_record_within_physical_limit limits m)) [
    | inl (x, r) ↦ ground (arith, view-add_runtime_memory e m j)
    | inr (x, r) ↦ ground arith
  ]

  pub mounted-bodies : (f : LocalFabric) → (mounted_writable_shard limits f).1.bodies ≡ f.bodies
  unfolding mounted_writable_shard
  mounted-bodies f = elim (Option-cases (first_taking limits f (spaces f))) [
    | inl p ↦ ground arith
    | inr (p, e) ↦ ground arith
  ]

  -- A creation touches at most one body, and that at the record's id.
  place-OnlyAt :
      (m : Memory) (f : LocalFabric)
      → (p : String) × OnlyAt p m.id f.bodies (place_runtime_memory_locked limits m f).1.bodies
  unfolding place_runtime_memory_locked
  place-OnlyAt m f =
      let target = mounted_writable_shard limits f in
      elim (Result-cases (ensure_memory_record_within_physical_limit limits m)) [
        | inr (x, r) ↦ (f.root, λ q j h. ground arith)
        | inl (x, r) ↦ elim (Option-cases target.0) [
          | inl full ↦ (f.root, λ q j h. ground (arith, mounted-bodies f))
          | inr (p, to) ↦ (
            p,
            λ q j h. ground (
              arith,
              mounted-bodies f,
              at_owner-OnlyAt p m.id (add_runtime_memory_checked limits m) target.1 (add-Keeps m) q
                  j h,
            ),
          )
        ]
      ]

  pub create-OnlyAt :
      (m : Memory) (f : LocalFabric)
      → (p : String) × OnlyAt p m.id f.bodies (create_explicit limits m f).1.bodies
  unfolding create_explicit
  create-OnlyAt m f =
      let (p, placed) = place-OnlyAt m f in
      elim (Bool-cases (role_at f f.root == "core")) [
        | inl core ↦ (p, λ q j h. ground (arith, placed q j h))
        | inr other ↦ (
          f.root,
          λ q j h. ground (
            arith,
            at_owner-OnlyAt f.root m.id (add_runtime_memory_checked limits m) f (add-Keeps m) q j h,
          ),
        )
      ]

  upsert_resolved-IsUnique :
      (q : Memory) (r : Result (String × Memory)) (f : LocalFabric)
      → Answers q.id r f.bodies
      → q.id ≢ ""
      → IsUnique f.bodies
      → IsUnique (upsert_resolved limits q r f).1.bodies
  unfolding upsert_resolved
  upsert_resolved-IsUnique q (ok (owner, m)) f a some_id u =
      IsUnique-OnlyAt owner q.id
        (λ s j h. ground (
          arith,
          at_owner-OnlyAt owner q.id (upsert_explicit_memory_on_owner q) f (upsert-Keeps q) s j h,
        ))
        (a.owned owner m refl) u
  upsert_resolved-IsUnique q (err eof) f a some_id u =
      let (p, only) = create-OnlyAt q f in
      IsUnique-OnlyAt p q.id only (λ s ne. a.missing refl some_id s) u
  upsert_resolved-IsUnique q (err unavailable) f a some_id u = u
  upsert_resolved-IsUnique q (err (side_effect _)) f a some_id u = u
  upsert_resolved-IsUnique q (err (failure _)) f a some_id u = u

  -- An upsert keeps every id in one body at most. The record's id has no blanks around it and copying
  -- the record keeps its id.
  pub upsert_explicit_memory_bounded-IsUnique :
      (m : Memory) (f : LocalFabric)
      → (limits.copy m).id ≡ m.id
      → trim_space m.id ≡ m.id
      → IsUnique f.bodies
      → IsUnique (upsert_explicit_memory_bounded limits m f).1.bodies
  unfolding upsert_explicit_memory_bounded
  upsert_explicit_memory_bounded-IsUnique m f copied trimmed u =
      let q = limits.copy m in
      let r = resolve_local_fabric_memory q.id f in
      elim (Bool-cases (trim_space m.id == "")) [
        | inl blank ↦ subst IsUnique (ground arith) u
        | inr some_id ↦ elim (Result-cases (ensure_memory_record_within_physical_limit limits m)) [
          | inr (x, e) ↦ subst IsUnique (ground arith) u
          | inl (x, e) ↦
              subst IsUnique {y = (upsert_explicit_memory_bounded limits m f).1.bodies}
                (ground arith)
                (upsert_resolved-IsUnique q r.0 r.1
                  (resolve-Answers q.id f (ap trim_space copied ∙ trimmed ∙ sym copied))
                  (λ h.
                    absurd (false≢true (sym some_id ∙ (eq_iff _ _).1 (trimmed ∙ sym copied ∙ h))))
                  (resolve-IsUnique q.id f u))
        ]
      ]
