-- ===== src/Machine/Run.antt =====
-- Kernel/src/kernel.go, Engine.run and the calls of execPrimitive: one Program on one Frame.
-- `depth` bounds the calls that are nested in each other, `steps` the operations of one Program; both
-- are the model's, and Machine.Sound.Execution shows how many steps are enough. The i-th reading of
-- the clock and
-- of the allocation counters in one execution is `sample i`. The execution counter is the only
-- telemetry that is kept: it is a field of the Memory.
use memory_ai.Prelude.{
  ℕ, zero, suc, ◌+◌, ◌*◌, String, Bool, true, false, List, [], ◌∷◌, ◌++◌, Option, none, some,
  failure, contains, Result, ok, err, ◌==◌, if◌then◌else◌, get_elem?,
}
use memory_ai.Prelude.Find.{split_csv}
use memory_ai.Prelude.Table.{Table, get, put}
use memory_ai.Model.{Op, Memory, Frame, ResourceBudget}
use memory_ai.Resource.{
  ResourceSample, check_resource_budget, check_resource_budget_before_primitive,
  enter_frame_resource_scope,
}
use memory_ai.Security.{check_primitive_capability}
use memory_ai.Machine.{
  Outcome, done, failed, panicked, beyond, out_of_fuel, Action, Next, Host, ◌>>=◌, ◌>>◌, pure, fail,
  leave_model, lift, reads, State, text_at, arg, bit, x, set_var, set_out,
}
use memory_ai.Machine.Targets.{Target, removed_at, resolve_executable, need_owner, store_at}
use memory_ai.Machine.Texts.{variable_cases, number_cases, text_cases}
use memory_ai.Machine.Reads.{read_cases}
use memory_ai.Machine.States.{state_cases}
use memory_ai.Machine.Records.{record_cases}
use memory_ai.Machine.Programs.{program_cases}

-- newFrame
abbrev pub new_frame : Frame
new_frame = record { vars = []; lists = []; output = []; resource_scope = none }

-- for _, k := range keys { child.Vars[k] = f.Vars[k] }
unfoldable pub keep_vars : List String → Table String → Table String → Table String
keep_vars [] parent child = child
keep_vars (k ∷ ks) parent child = keep_vars ks parent (put child k (text_at parent k))

-- How a run on a child's Frame ended, and the Frame that it left, where it ended.
unfoldable pub child_outcome : Frame → Outcome (Unit {0}) → Outcome (Result (Unit {0}) × Frame)
child_outcome parent (done a s) = done (ok tt, s.frame) (record s { frame = parent })
child_outcome parent (failed e s) = done (err e, s.frame) (record s { frame = parent })
child_outcome parent (panicked s) = panicked (record s { frame = parent })
child_outcome parent (beyond s) = beyond (record s { frame = parent })
child_outcome parent out_of_fuel = out_of_fuel

unfoldable pub in_frame : Frame → Action (Unit {0}) → Action (Result (Unit {0}) × Frame)
in_frame child m s = child_outcome s.frame (m (record s { frame = child }))

-- labels[op.A] = i, for each label of a Program; the last of a name stands.
unfoldable pub labels_from : ℕ → List Op → Table ℕ → Table ℕ
labels_from i [] labels = labels
labels_from i (op ∷ ops) labels =
    labels_from (suc i) ops (if op.code == "label" then put labels op.a i else labels)

-- The record that the target's pointer shows now: the one in the cache, or, when it was deleted, its last
-- value. The operations that are modelled make no new record under the id.
unfoldable pub cached : State → Target → Option Memory
cached s t = elim (get s.fabric.bodies t.body) [ none ↦ none | some e ↦ get e.cache t.key ]

unfoldable pub current_memory : State → Target → Memory
current_memory s t = elim (cached s t) [
  | some m ↦ m
  | none ↦ elim (removed_at s t.body t.key) [ some m ↦ m | none ↦ t.memory ]
]

unfoldable pub current : Target → Action Memory
current t s = done (current_memory s t) s

-- The test before a primitive, which reserves what it will use in the Frame.
unfoldable pub reserve :
    ResourceBudget → ResourceSample → ResourceSample → ℕ → String → Action (Unit {0})
reserve b start now ops code s =
    let (r, f) = check_resource_budget_before_primitive b start now ops s.frame code in
    lift r (record s { frame = f })

-- defer restoreResourceScope()
unfoldable pub leave : {A : Type 0} → (Frame → Frame) → Outcome A → Outcome A
leave restore (done a s) = done a (record s { frame = restore s.frame })
leave restore (failed e s) = failed e (record s { frame = restore s.frame })
leave restore (panicked s) = panicked (record s { frame = restore s.frame })
leave restore (beyond s) = beyond (record s { frame = restore s.frame })
leave restore out_of_fuel = out_of_fuel

unfoldable pub scoped : {A : Type 0} → ResourceBudget → Action A → Action A
scoped b m s =
    let (f, restore) = enter_frame_resource_scope s.frame b in
    leave restore (m (record s { frame = f }))

unfoldable pub tired : {A : Type 0} → Action A
tired s = out_of_fuel

-- The position of the next operation.
unfoldable pub next_pc : ℕ → Next → ℕ
next_pc pc none = suc pc
next_pc pc (some p) = p

module _ (sample : ℕ → ResourceSample) (exec : Memory → Table ℕ → Op → Action Next)
    (t : Target) where
  -- The body of the loop over the Program: `ops` operations have been executed.
  unfoldable pub run_op : Table ℕ → ℕ → Op → Action Next
  run_op labels ops op = do
    self ← current t
    lift (check_primitive_capability self op.code)
    reserve t.memory.budget (sample 0) (sample (2 * ops + 1)) ops op.code
    next ← exec self labels op
    lift (check_resource_budget t.memory.budget (sample 0) (sample (2 * ops + 2)) (suc ops))
    pure next

  unfoldable pub run_from : Table ℕ → ℕ → ℕ → ℕ → Action (Unit {0})
  run_from labels zero pc ops = elim (get_elem? t.memory.program pc) [
    | none ↦ pure tt
    | some _ ↦ tired
  ]
  run_from labels (suc steps) pc ops = elim (get_elem? t.memory.program pc) [
    | none ↦ pure tt
    | some op ↦ run_op labels ops op >>= λ next. run_from labels steps (next_pc pc next) (suc ops)
  ]

-- The cases of the switch that are not modelled.
abbrev pub other_codes : List String
other_codes =
    "memory_refs" ∷ "cache_list" ∷ "cache_count" ∷ "cache_drop" ∷ "body_count" ∷ "body_list"
    ∷ "tag_list" ∷ "call_parallel" ∷ "utf8_bytes" ∷ "unicode_runes" ∷ "unicode_windows"
    ∷ "time_unix" ∷ "time_unix_nano" ∷ "runtime_cpu_count" ∷ "physical_runtime_stats"
    ∷ "physical_execution_concurrency_set" ∷ "emit_event" ∷ "credential_get" ∷ "url_parse"
    ∷ "regex_first" ∷ "json_keys" ∷ "json_get" ∷ "json_array_strings" ∷ "regex_all" ∷ "memory_new"
    ∷ "memory_copy" ∷ "memory_digest" ∷ "memory_export_json" ∷ "memory_import_json"
    ∷ "process_restart" ∷ "space_info" ∷ "space_list" ∷ "space_next_path" ∷ "space_create"
    ∷ "space_mount" ∷ "space_unmount" ∷ "space_select_write" ∷ "space_write_target" ∷ "space_copy"
    ∷ "space_move" ∷ "space_merge" ∷ "space_all_ids" ∷ "remote_space_info" ∷ "remote_space_create"
    ∷ "remote_space_put" ∷ "remote_space_get" ∷ "remote_space_digest" ∷ "remote_space_import"
    ∷ "remote_space_list" ∷ "remote_space_upsert" ∷ "remote_space_delete" ∷ "remote_space_tag_list"
    ∷ "space_fsck" ∷ "artifact_write" ∷ "artifact_read" ∷ "artifact_digest" ∷ "artifact_exists"
    ∷ "mesh_role" ∷ "mesh_shared_propose" ∷ "mesh_shared_search" ∷ "mesh_shared_fetch"
    ∷ "mesh_shared_reconcile" ∷ "mesh_structure_run" ∷ "mesh_route_execution" ∷ "mesh_fanout"
    ∷ "mesh_journal_flush" ∷ "mesh_directory" ∷ "physical_exchange" ∷ "persist" ∷ []

unfoldable pub is_done : Result (Unit {0}) → Bool
is_done (ok _) = true
is_done (err _) = false

module _ (h : Host) where
  -- for _, k := range keys { setv(k, child.Vars[k]) }
  unfoldable pub copy_out : List String → Frame → Action (Unit {0})
  copy_out [] child = pure tt
  copy_out (k ∷ ks) child = set_var h k (text_at child.vars k) >> copy_out ks child

module _ (h : Host) (run : String → Action (Unit {0})) where
  unfoldable pub call : Op → Action Next
  call op = do target ← x h op.a; run target; pure none

  -- A run on a new Frame with the variables that op.Args["keep"] names.
  unfoldable pub call_child : Op → Action (Result (Unit {0}) × Frame)
  call_child op = do
    keep ← x h (arg op "keep")
    vars ← reads (λ s. s.frame.vars)
    target ← x h op.a
    in_frame (record new_frame { vars = keep_vars (split_csv keep) vars [] }) (run target)

  unfoldable pub call_isolated : Op → Action Next
  call_isolated op = do
    child ← call_child op
    lift child.0
    out ← x h (arg op "out")
    copy_out h (split_csv out) child.1
    pure none

  unfoldable pub call_try_isolated : Op → Action Next
  call_try_isolated op = do
    child ← call_child op
    set_out h op "ok_out" (bit (is_done child.0))
    if is_done child.0
        then (do out ← x h (arg op "out"); copy_out h (split_csv out) child.1)
        else pure tt
    pure none

  unfoldable pub call_cases : Op → Table (Action Next)
  call_cases op =
      ("call", call op)
      ∷ ("call_isolated", call_isolated op)
      ∷ ("call_try_isolated", call_try_isolated op)
      ∷ []

  -- The cases of the switch that are modelled.
  unfoldable pub primitives : Memory → Table ℕ → Op → Table (Action Next)
  primitives self labels op =
      variable_cases h self labels op
      ++ (read_cases h self op
          ++ (number_cases h labels op
              ++ (call_cases op
                  ++ (text_cases h self op
                      ++ (state_cases h op ++ (record_cases h op ++ program_cases h op))))))

  unfoldable pub exec_primitive : Memory → Table ℕ → Op → Action Next
  exec_primitive self labels op = elim (get (primitives self labels op) op.code) [
    | none ↦
        if contains other_codes op.code then leave_model else fail (failure "unknown primitive")
    | some m ↦ m
  ]

module _ (h : Host) (sample : ℕ → ResourceSample) (steps : ℕ) where
  unfoldable pub run : ℕ → String → Action (Unit {0})
  run zero id_or_tag = tired
  run (suc depth) id_or_tag = do
    target ← x h id_or_tag
    t ← resolve_executable target
    owner ← need_owner t
    store_at t (record t.memory { runtime_exec_count = suc t.memory.runtime_exec_count })
    scoped t.memory.budget (
        run_from sample (exec_primitive h (run depth)) t (labels_from 0 t.memory.program []) steps 0
          0)
