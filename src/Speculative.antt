-- ===== src/Speculative.antt =====
-- Kernel/src/speculative_txn.go, speculative_lazy.go, speculative_fabric_commit.go: optimistic
-- transactions. A run executes on a private engine; its difference to what it read is validated and
-- applied under the locks of every body that it touches, or else nothing is written.
-- Bodies are objects that many places point to: a Fabric is a table of them by path, and an owner
-- is the path of one.
pub mod Commit
pub mod Plans
pub mod Validation
pub mod Execs
pub mod Outcome
pub mod Conflicts
pub mod Applied
mod Tests
use memory_ai.Prelude.{
  ℕ, ◌+◌, ◌-◌, String, Bool, true, false, ◌&&◌, ◌||◌, not, List, [], ◌∷◌, ◌++◌, Option, none, some,
  ◌==◌, ltb, nat_eq, if◌then◌else◌, contains, Result, ok, err, eof,
}
use memory_ai.Prelude.Table.{Table, get, put, remove, has, flag, keys}
use memory_ai.Model.{Memory}
use memory_ai.Engine.{Engine, add_tags, remove_tags}
pub use memory_ai.Engine.{Fabric, on_body}

-- encoding/json and crypto/sha256, as the kernel uses them on a Memory: `copy` is the round trip
-- of copyMemory, `digest` the hexadecimal hash of the encoding.
pub record Codec : Type 0 where
  pub copy : Memory → Memory
  pub digest : Memory → String

pub record MemorySnapshot : Type 0 where
  pub memories : Table Memory
  pub new_ids : Table Bool
  pub deleted_ids : Table Bool
  pub dirty_ids : Table Bool

pub record TransactionDiff : Type 0 where
  pub changed : Table Memory
  pub deleted : Table Bool
  pub created : Table Memory
  pub exec_delta : Table ℕ

-- A `changed` of none is a deletion. `current` is read in the first phase.
pub record StructuralPlan : Type 0 where
  pub id : String
  pub owner : String
  pub baseline : Memory
  pub changed : Option Memory
  pub exec_delta : ℕ
  pub current : Option Memory

pub record ExecPlan : Type 0 where
  pub id : String
  pub owner : String
  pub delta : ℕ
  pub current : Option Memory

infixl 5 ◌>>=◌
abbrev pub ◌>>=◌ : {A B : Type 0} → Option A → (A → Option B) → Option B
none >>= f = none
some a >>= f = f a

abbrev pub when : Bool → Option (Unit {0})
when true = some tt
when false = none

abbrev pub answered : Result Memory → Option Memory
answered (ok m) = some m
answered (err _) = none

abbrev pub is_empty : Table Memory → Bool
is_empty [] = true
is_empty (_ ∷ _) = false

abbrev pub or_zero : Option ℕ → ℕ
or_zero none = 0
or_zero (some n) = n

abbrev pub live_tags : Option Memory → List String
live_tags none = []
live_tags (some m) = m.tags

abbrev pub live_exec : Option Memory → ℕ
live_exec none = 0
live_exec (some m) = m.runtime_exec_count

-- A loop that appends a plan for each element, or returns false.
unfoldable pub plan_each : {A B : Type 0} → (A → Option B) → List A → Option (List B)
plan_each plan [] = some []
plan_each plan (x ∷ xs) = do p ← plan x; rest ← plan_each plan xs; some (p ∷ rest)

-- The plan of one id of d.changed; none is `return false`.
unfoldable pub plan_change :
    Table Memory → Table String → TransactionDiff → String → Option StructuralPlan
plan_change base owners d id = do
  owner ← get owners id
  baseline ← get base id
  changed ← get d.changed id
  some (record {
    id = id;
    owner = owner;
    baseline = baseline;
    changed = some changed;
    exec_delta = or_zero (get d.exec_delta id);
    current = none;
  })

-- The plan of one id of d.deleted.
unfoldable pub plan_deletion :
    Table Memory → Table String → TransactionDiff → String → Option StructuralPlan
plan_deletion base owners d id = do
  owner ← get owners id
  baseline ← get base id
  some (record {
    id = id;
    owner = owner;
    baseline = baseline;
    changed = none;
    exec_delta = or_zero (get d.exec_delta id);
    current = none;
  })

-- The ids that d.execDelta advances and that are neither changed nor deleted.
unfoldable pub is_counted : TransactionDiff → String → Bool
is_counted d id =
    not (nat_eq (or_zero (get d.exec_delta id)) 0 || (has d.changed id || has d.deleted id))

unfoldable pub plan_count : Table Memory → Table String → TransactionDiff → String → Option ExecPlan
plan_count base owners d id = do
  owner ← get owners id
  _ ← get base id
  some (record { id = id; owner = owner; delta = or_zero (get d.exec_delta id); current = none })

-- for id, delta := range d.execDelta
unfoldable pub plan_exec :
    Table Memory → Table String → TransactionDiff → List String → Option (List ExecPlan)
plan_exec base owners d [] = some []
plan_exec base owners d (id ∷ ids) =
    let rest = plan_exec base owners d ids in
    if is_counted d id
    then (plan_count base owners d id >>= λ p. rest >>= λ ps. some (p ∷ ps))
    else rest

module _ (c : Codec) where
  open c use {copy, digest}

  unfoldable pub memory_digest_no_runtime_exec : Memory → String
  memory_digest_no_runtime_exec m = digest (record (copy m) { runtime_exec_count = 0 })

  -- The body of the loop over base.memories, for the id with baseline bm.
  unfoldable pub diff_one : Engine → String → Memory → TransactionDiff → TransactionDiff
  diff_one ce id bm d = elim (get ce.cache id) [
    | none ↦ record d { deleted = put d.deleted id true }
    | some cm ↦
        if flag ce.deleted_ids id then record d { deleted = put d.deleted id true } else record d {
          exec_delta =
              if ltb bm.runtime_exec_count cm.runtime_exec_count
              then put d.exec_delta id (cm.runtime_exec_count - bm.runtime_exec_count)
              else d.exec_delta;
          changed =
              if memory_digest_no_runtime_exec cm == memory_digest_no_runtime_exec bm
              then d.changed
              else put d.changed id (copy cm);
        }
  ]

  unfoldable pub diff_known :
      Table Memory → Engine → List String → TransactionDiff → TransactionDiff
  diff_known base ce [] d = d
  diff_known base ce (id ∷ ids) d =
      diff_known base ce ids (elim (get base id) [ none ↦ d | some bm ↦ diff_one ce id bm d ])

  unfoldable pub diff_created :
      Table Memory → Engine → List String → TransactionDiff → TransactionDiff
  diff_created base ce [] d = d
  diff_created base ce (id ∷ ids) d = diff_created base ce ids (elim (get ce.cache id) [
    | none ↦ d
    | some cm ↦
        if not (has base id) && not (flag ce.deleted_ids id)
        then record d { created = put d.created id (copy cm) }
        else d
  ])

  abbrev pub no_diff : TransactionDiff
  no_diff = record { changed = []; deleted = []; created = []; exec_delta = [] }

  unfoldable pub diff_snapshot : MemorySnapshot → Engine → TransactionDiff
  diff_snapshot base ce =
      diff_created base.memories ce (keys ce.cache)
        (diff_known base.memories ce (keys base.memories) no_diff)

  -- The structural view of a body while its lock is held.
  unfoldable pub physical_owner_memory_locked : Engine → String → Result Memory
  physical_owner_memory_locked e id =
      if flag e.deleted_ids id then err eof else elim (get e.cache id) [
        | some m ↦ ok (copy m)
        | none ↦ elim (e.store.get_id id) [ ok m ↦ ok (copy m) | err x ↦ err x ]
      ]

  unfoldable pub write_plan : StructuralPlan → Bool → Engine → Option Memory → Engine
  write_plan plan was_new e none = record e {
    cache = remove e.cache plan.id;
    new_ids = remove e.new_ids plan.id;
    dirty_ids = remove e.dirty_ids plan.id;
    deleted_ids = if was_new then remove e.deleted_ids plan.id else put e.deleted_ids plan.id true;
    dirty = true;
  }
  write_plan plan was_new e (some changed) =
      let q = record (copy changed) {
        runtime_exec_count = live_exec plan.current + plan.exec_delta;
      } in
      let e₁ = add_tags plan.id q.tags (record e { cache = put e.cache plan.id q }) in
      record e₁ {
        new_ids = if was_new then put e₁.new_ids plan.id true else remove e₁.new_ids plan.id;
        deleted_ids = remove e₁.deleted_ids plan.id;
        dirty_ids = put e₁.dirty_ids plan.id true;
        dirty = true;
      }

  unfoldable pub apply_structural_plan_locked : StructuralPlan → Engine → Engine
  apply_structural_plan_locked plan e =
      let e₁ = remove_tags plan.id (live_tags plan.current) e in
      write_plan plan (flag e₁.new_ids plan.id) e₁ plan.changed

  -- m.RuntimeExecCount += delta, on the cached record or on a copy that is cached now.
  unfoldable pub apply_exec_plan_locked : ExecPlan → Engine → Engine
  apply_exec_plan_locked plan e = elim (get e.cache plan.id) [
    | some m ↦ record e {
      cache =
          put e.cache plan.id (record m { runtime_exec_count = m.runtime_exec_count + plan.delta });
    }
    | none ↦ elim plan.current [
      | none ↦ e
      | some m ↦ record e {
        cache =
            put e.cache plan.id
              (record (copy m) { runtime_exec_count = (copy m).runtime_exec_count + plan.delta });
      }
    ]
  ]

  -- Phase 1: a baseline against the live record; none is `return false`.
  unfoldable pub validate_plan : Fabric → StructuralPlan → Option StructuralPlan
  validate_plan fabric p = do
    owner ← get fabric p.owner
    current ← answered (physical_owner_memory_locked owner p.id)
    if memory_digest_no_runtime_exec current == memory_digest_no_runtime_exec p.baseline
        then some (record p { current = some current })
        else none

  unfoldable pub validate_count : Fabric → ExecPlan → Option ExecPlan
  validate_count fabric p = do
    owner ← get fabric p.owner
    current ← answered (physical_owner_memory_locked owner p.id)
    some (record p { current = some current })

  -- Phase 2.
  unfoldable pub apply_structural : List StructuralPlan → Fabric → Fabric
  apply_structural [] fabric = fabric
  apply_structural (p ∷ ps) fabric =
      apply_structural ps (on_body p.owner (apply_structural_plan_locked p) fabric)

  unfoldable pub apply_exec : List ExecPlan → Fabric → Fabric
  apply_exec [] fabric = fabric
  apply_exec (p ∷ ps) fabric = apply_exec ps (on_body p.owner (apply_exec_plan_locked p) fabric)

  -- The writes of a commit that validates; none is `return false`.
  unfoldable pub commit_writes :
      MemorySnapshot → Table String → TransactionDiff → Fabric → Option Fabric
  commit_writes base owners d fabric = do
    _ ← when (is_empty d.created)
    changed ← plan_each (plan_change base.memories owners d) (keys d.changed)
    deleted ← plan_each (plan_deletion base.memories owners d) (keys d.deleted)
    execs ← plan_exec base.memories owners d (keys d.exec_delta)
    structural ← plan_each (validate_plan fabric) (changed ++ deleted)
    exec_plans ← plan_each (validate_count fabric) execs
    some (apply_exec exec_plans (apply_structural structural fabric))

  unfoldable pub commit_fabric_snapshot_diff :
      MemorySnapshot → Table String → TransactionDiff → Fabric → Bool × Fabric
  commit_fabric_snapshot_diff base owners d fabric = elim (commit_writes base owners d fabric) [
    | none ↦ (false, fabric)
    | some fabric' ↦ (true, fabric')
  ]
