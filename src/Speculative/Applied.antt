-- ===== src/Speculative/Applied.antt =====
-- Kernel/src/speculative_fabric_commit.go: what applying one plan does to the view of one body.
use mathlib.Core.Option
use memory_ai.Prelude.{
  ℕ, ◌+◌, String, ◌≡◌, refl, true, List, Option, none, some, ◌==◌, eq_iff, arith, if◌then◌else◌,
  Result-cases, Option-cases, inl, inr,
}
use memory_ai.Prelude.Table.{get, put, flag, get-put, get-remove}
use memory_ai.Model.{Memory}
use memory_ai.Engine.{Engine, remove_tags}
use memory_ai.Engine.View.{stored, view}
use memory_ai.Engine.Tags.{untagged-add_tags, untagged-remove_tags}
use memory_ai.Speculative.{
  Codec, StructuralPlan, ExecPlan, live_tags, live_exec, memory_digest_no_runtime_exec, write_plan,
  physical_owner_memory_locked, answered, apply_structural_plan_locked, apply_exec_plan_locked,
}

-- What the kernel relies on: a copy keeps the execution counter, and the digest without the counter
-- sees neither a copy nor the counter.
pub record CodecLaws (c : Codec) : Type 0 where
  pub copy_exec : (m : Memory) → (c.copy m).runtime_exec_count ≡ m.runtime_exec_count
  pub copy_digest :
      (m : Memory) (n : ℕ)
      → memory_digest_no_runtime_exec c (record (c.copy m) { runtime_exec_count = n })
        ≡ memory_digest_no_runtime_exec c m
  pub exec_digest :
      (m : Memory) (n : ℕ)
      → memory_digest_no_runtime_exec c (record m { runtime_exec_count = n })
        ≡ memory_digest_no_runtime_exec c m

-- A record that has never been persisted is not in the store.
pub record IsFresh (e : Engine) : Type 0 where
  pub unstored : (id : String) → flag e.new_ids id ≡ true → stored e id ≡ none

module _ (c : Codec) where
  -- A record as transactions see it: its digest and its execution counter.
  abbrev pub observe : Option Memory → Option (String × ℕ)
  observe none = none
  observe (some m) = some (memory_digest_no_runtime_exec c m, m.runtime_exec_count)

  -- What a validated structural plan writes.
  abbrev pub planned : StructuralPlan → Option (String × ℕ)
  planned p = elim p.changed [
    | none ↦ none
    | some m ↦ some (memory_digest_no_runtime_exec c m, live_exec p.current + p.exec_delta)
  ]

abbrev pub bump : ℕ → Option (String × ℕ) → Option (String × ℕ)
bump n none = none
bump n (some (d, k)) = some (d, k + n)

-- The record that a plan caches.
abbrev pub written : Codec → StructuralPlan → Memory → Memory
written c p m = record (c.copy m) { runtime_exec_count = live_exec p.current + p.exec_delta }

module _ {c : Codec} (laws : CodecLaws c) where
  view-write_plan :
      (p : StructuralPlan) (e : Engine) (o : Option Memory) (j : String)
      → IsFresh e
      → view (write_plan c p (flag e.new_ids p.id) e o) j
        ≡ (if p.id == j then Option.map (written c p) o else view e j)
  unfolding write_plan view
  view-write_plan p e none j fresh = ground (
    arith,
    get-remove e.cache p.id j,
    get-remove e.deleted_ids p.id j,
    get-put e.deleted_ids p.id j true,
    eq_iff p.id j,
    fresh.unstored p.id,
  )
  view-write_plan p e (some m) j fresh =
      let q = written c p m in
      ground (
        arith,
        get-put e.cache p.id j q,
        get-remove e.deleted_ids p.id j,
        eq_iff p.id j,
        untagged-add_tags p.id q.tags (record e { cache = put e.cache p.id q }),
      )

  IsFresh-write_plan :
      (p : StructuralPlan) (e : Engine) (o : Option Memory)
      → IsFresh e
      → IsFresh (write_plan c p (flag e.new_ids p.id) e o)
  unfolding write_plan
  IsFresh-write_plan p e none fresh = record {
    unstored = λ j h. ground (arith, get-remove e.new_ids p.id j, fresh.unstored j);
  }
  IsFresh-write_plan p e (some m) fresh = record {
    unstored = λ j h.
        let q = written c p m in
        ground (
          arith,
          get-remove e.new_ids p.id j,
          get-put e.new_ids p.id j true,
          eq_iff p.id j,
          fresh.unstored j,
          untagged-add_tags p.id q.tags (record e { cache = put e.cache p.id q }),
        );
  }

  observe-written :
      (p : StructuralPlan) → observe c (Option.map (written c p) p.changed) ≡ planned c p
  observe-written p = go p.changed
    where
      go :
          (o : Option Memory)
          → observe c (Option.map (written c p) o) ≡ elim o [
            | none ↦ none
            | some m ↦ some (memory_digest_no_runtime_exec c m, live_exec p.current + p.exec_delta)
          ]
      go none = refl
      go (some m) = rw (laws.copy_digest m (live_exec p.current + p.exec_delta)) refl

  IsFresh-remove_tags :
      (id : String) (ts : List String) (e : Engine) → IsFresh e → IsFresh (remove_tags id ts e)
  IsFresh-remove_tags id ts e fresh = record {
    unstored = λ j h. ground (arith, untagged-remove_tags id ts e, fresh.unstored j);
  }

  view-remove_tags :
      (id : String) (ts : List String) (e : Engine) (j : String)
      → view (remove_tags id ts e) j ≡ view e j
  unfolding view
  view-remove_tags id ts e j = ground (arith, untagged-remove_tags id ts e)

  -- A structural plan replaces what is observed under its id and nothing else.
  pub observe-apply_structural_plan :
      (p : StructuralPlan) (e : Engine) (j : String)
      → IsFresh e
      → observe c (view (apply_structural_plan_locked c p e) j)
        ≡ (if p.id == j then planned c p else observe c (view e j))
  unfolding apply_structural_plan_locked
  observe-apply_structural_plan p e j fresh =
      let e₁ = remove_tags p.id (live_tags p.current) e in
      ground (
        arith,
        view-write_plan p e₁ p.changed j (IsFresh-remove_tags p.id (live_tags p.current) e fresh),
        view-remove_tags p.id (live_tags p.current) e j,
        observe-written p,
      )

  pub IsFresh-apply_structural_plan :
      (p : StructuralPlan) (e : Engine) → IsFresh e → IsFresh (apply_structural_plan_locked c p e)
  unfolding apply_structural_plan_locked
  IsFresh-apply_structural_plan p e fresh =
      IsFresh-write_plan p (remove_tags p.id (live_tags p.current) e) p.changed
        (IsFresh-remove_tags p.id (live_tags p.current) e fresh)

  -- An execution plan whose record is as it was validated advances the counter of that record and
  -- changes nothing else.
  pub observe-apply_exec_plan :
      (p : ExecPlan) (e : Engine) (j : String) (m : Memory)
      → p.current ≡ some m
      → observe c (view e p.id) ≡ observe c (some m)
      → observe c (view (apply_exec_plan_locked c p e) j)
        ≡ (if p.id == j then bump p.delta (observe c (view e j)) else observe c (view e j))
  unfolding apply_exec_plan_locked view
  observe-apply_exec_plan p e j m known same = elim (Option-cases (get e.cache p.id)) [
    | inl out ↦
        let q : Memory = record (c.copy m) {
          runtime_exec_count = (c.copy m).runtime_exec_count + p.delta;
        } in
        ground (
          arith,
          get-put e.cache p.id j q,
          eq_iff p.id j,
          laws.copy_exec m,
          laws.copy_digest m q.runtime_exec_count,
        )
    | inr (x, there) ↦
        let q : Memory = record x { runtime_exec_count = x.runtime_exec_count + p.delta } in
        ground
          (arith, get-put e.cache p.id j q, eq_iff p.id j, laws.exec_digest x q.runtime_exec_count)
  ]

  -- The record that validation reads is the one that is shown.
  pub observe-physical :
      (e : Engine) (id : String) (m : Memory)
      → answered (physical_owner_memory_locked c e id) ≡ some m
      → observe c (view e id) ≡ observe c (some m)
  unfolding physical_owner_memory_locked view
  observe-physical e id m h = elim (Option-cases (get e.cache id)) [
    | inr (x, there) ↦
        ground (arith, laws.copy_exec x, laws.copy_digest x (c.copy x).runtime_exec_count)
    | inl out ↦ elim (Result-cases (e.store.get_id id)) [
      | inl (x, read) ↦
          ground (arith, laws.copy_exec x, laws.copy_digest x (c.copy x).runtime_exec_count)
      | inr (x, failed) ↦ ground arith
    ]
  ]
