-- ===== src/Scheduler.antt =====
-- Kernel/src/scheduler_runtime.go, speculative_txn.go, speculative_boundary_extra.go: which operations a
-- speculative execution may not reach, what the scheduler tells of a Program, and the canonical execution.
mod Tests
use mathlib.Core.Path.{subst}
use memory_ai.Prelude.{
  String, ◌≡◌, refl, sym, Bool, true, false, ◌||◌, not, List, [], ◌∷◌, Option, none, some, Result,
  ok, err, ◌==◌, eq_iff, eq_refl, arith, if◌then◌else◌, contains, Option-cases, inl, inr,
}
use memory_ai.Prelude.Table.{Table, get, put, remove, get-put, get-remove}
use memory_ai.Prelude.Text.{sort_strings}
use memory_ai.Model.{Op, Memory}
use memory_ai.Security.{is_empty}
use memory_ai.Fabric.{LocalFabric, resolve_local_fabric_memory}
use memory_ai.Machine.{State, Outcome, done, failed, panicked, beyond, out_of_fuel, Action}

abbrev forbidden_ops : List String
forbidden_ops =
    "process_restart" ∷ "space_next_path" ∷ "space_create" ∷ "space_mount" ∷ "space_unmount"
    ∷ "space_select_write" ∷ "space_copy" ∷ "space_move" ∷ "space_merge" ∷ "space_fsck"
    ∷ "remote_space_info" ∷ "remote_space_create" ∷ "remote_space_put" ∷ "remote_space_get"
    ∷ "remote_space_digest" ∷ "remote_space_import" ∷ "remote_space_list" ∷ "remote_space_upsert"
    ∷ "remote_space_delete" ∷ "remote_space_tag_list" ∷ "physical_exchange" ∷ "persist"
    ∷ "artifact_write" ∷ "artifact_read" ∷ "artifact_digest" ∷ "artifact_exists"
    ∷ "mesh_shared_propose" ∷ "mesh_shared_search" ∷ "mesh_shared_fetch" ∷ "mesh_structure_run"
    ∷ "mesh_fanout" ∷ "mesh_journal_flush" ∷ "mesh_directory" ∷ []

unfoldable pub speculative_forbidden_primitive : String → Bool
unfolding contains
speculative_forbidden_primitive code = contains forbidden_ops code

abbrev additional_ops : List String
additional_ops =
    "mesh_shared_reconcile" ∷ "mesh_route_execution" ∷ "physical_execution_concurrency_set"
    ∷ "memory_new" ∷ "memory_copy" ∷ []

unfoldable pub speculative_additional_forbidden_primitive : String → Bool
unfolding contains
speculative_additional_forbidden_primitive code = contains additional_ops code

abbrev pub is_forbidden : String → Bool
is_forbidden code =
    speculative_forbidden_primitive code || speculative_additional_forbidden_primitive code

-- The loop over a Program; it stops at the first operation that is forbidden.
unfoldable pub has_side_effect : List Op → Bool
has_side_effect [] = false
has_side_effect (op ∷ ops) = elim (is_forbidden op.code) [
  | true ↦ true
  | false ↦ has_side_effect ops
]

pub record Classification : Type 0 where
  pub id : String
  pub speculative_safe_direct : Bool
  pub external_side_effect : Bool

unfoldable pub classify_each : List String → LocalFabric → List Classification × LocalFabric
classify_each [] f = ([], f)
classify_each (id ∷ ids) f =
    let (r, f') = resolve_local_fabric_memory id f in
    let (rows, f'') = classify_each ids f' in
    elim r [
      | err _ ↦ (rows, f'')
      | ok (p, m) ↦ if is_empty m.program then (rows, f'') else (
        record {
          id = id;
          speculative_safe_direct = not (has_side_effect m.program);
          external_side_effect = has_side_effect m.program;
        }
            ∷ rows,
        f'',
      )
    ]

unfoldable pub classify_targets : List String → LocalFabric → List Classification × LocalFabric
classify_targets ids f = classify_each (sort_strings ids) f

-- The deferred restoration of the variable that marks a canonical execution.
unfoldable pub restore_canonical : Option String → State → State
restore_canonical none s = record s {
  frame = record s.frame { vars = remove s.frame.vars "__txn_canonical" };
}
restore_canonical (some old) s = record s {
  frame = record s.frame { vars = put s.frame.vars "__txn_canonical" old };
}

unfoldable pub restored : Option String → Outcome (Unit {0}) → Outcome (Unit {0})
restored old (done a s) = done a (restore_canonical old s)
restored old (failed e s) = failed e (restore_canonical old s)
restored old (panicked s) = panicked (restore_canonical old s)
restored old (beyond s) = beyond (restore_canonical old s)
restored old out_of_fuel = out_of_fuel

unfoldable pub canonical : (String → Action (Unit {0})) → String → Action (Unit {0})
canonical run id s =
    restored (get s.frame.vars "__txn_canonical") (
      run id
        (record s { frame = record s.frame { vars = put s.frame.vars "__txn_canonical" "1" } }))

-- The state in which the execution runs.
unfoldable pub marked : State → State
marked s = record s { frame = record s.frame { vars = put s.frame.vars "__txn_canonical" "1" } }

-- The second state is the first but for the mark, which is `old`.
pub record IsRestored (old : Option String) (u v : State) : Type 0 where
  pub mark : get v.frame.vars "__txn_canonical" ≡ old
  pub others :
      (key : String)
      → get v.frame.vars key ≡ (if "__txn_canonical" == key then old else get u.frame.vars key)
  pub rest :
      record v { frame = record v.frame { vars = [] } }
      ≡ record u { frame = record u.frame { vars = [] } }

-- The second outcome is the first but for the mark.
unfoldable pub Restores : Option String → Outcome (Unit {0}) → Outcome (Unit {0}) → Type 0
Restores old (done _ u) (done _ v) = IsRestored old u v
Restores old (failed e u) (failed d v) = (e ≡ d) × IsRestored old u v
Restores old (panicked u) (panicked v) = IsRestored old u v
Restores old (beyond u) (beyond v) = IsRestored old u v
Restores old out_of_fuel out_of_fuel = Unit
Restores old _ _ = ⊥

restore_canonical-IsRestored :
    (old : Option String) (s : State) → IsRestored old s (restore_canonical old s)
unfolding restore_canonical
restore_canonical-IsRestored none s = record {
  mark = ground (
    arith,
    get-remove s.frame.vars "__txn_canonical" "__txn_canonical",
    eq_refl "__txn_canonical",
  );
  others = λ key. get-remove s.frame.vars "__txn_canonical" key;
  rest = refl;
}
restore_canonical-IsRestored (some old) s = record {
  mark = ground (
    arith,
    get-put s.frame.vars "__txn_canonical" "__txn_canonical" old,
    eq_refl "__txn_canonical",
  );
  others = λ key. get-put s.frame.vars "__txn_canonical" key old;
  rest = refl;
}

restored-Restores : (old : Option String) (o : Outcome (Unit {0})) → Restores old o (restored old o)
unfolding restored Restores
restored-Restores old (done a t) = restore_canonical-IsRestored old t
restored-Restores old (failed e t) = (refl, restore_canonical-IsRestored old t)
restored-Restores old (panicked t) = restore_canonical-IsRestored old t
restored-Restores old (beyond t) = restore_canonical-IsRestored old t
restored-Restores old out_of_fuel = tt

-- A canonical execution runs in the caller's state with the mark set, and ends as that run ends, with its
-- error or panic, in the state that the run left but for the mark, which is again what it was before
-- the execution, and absent where it was absent.
pub canonical-Restores :
    (run : String → Action (Unit {0})) (id : String) (s : State)
    → Restores (get s.frame.vars "__txn_canonical") (run id (marked s)) (canonical run id s)
unfolding canonical marked
canonical-Restores run id s =
    restored-Restores (get s.frame.vars "__txn_canonical") (
      run id
        (record s { frame = record s.frame { vars = put s.frame.vars "__txn_canonical" "1" } }))
