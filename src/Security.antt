-- ===== src/Security.antt =====
-- Kernel/src/security_runtime.go: which capability an operation needs, and what a Memory may do.
-- Signatures need HMAC, JSON and the environment, which the definitions take as `verify`.
pub mod Admission
mod Tests
use memory_ai.Prelude.{
  String, Bool, true, false, ◌&&◌, ◌||◌, not, List, [], ◌∷◌, Option, none, some, ◌==◌,
  if◌then◌else◌, contains, Result, ok, err, failure, ◌>>=◌, ◌>>◌, reject_if, is_some,
}
use memory_ai.Prelude.Table.{Table, get}
use memory_ai.Model.{Op, Memory}

-- privilegedOpCapability, one list for each capability.
abbrev privileged_ops : Table (List String)
privileged_ops =
    (
      "memory.write",
      "state_set" ∷ "state_list_append" ∷ "state_list_unique_append" ∷ "state_num_add"
          ∷ "memory_new" ∷ "memory_copy" ∷ "memory_history_append" ∷ "memory_tag_add"
          ∷ "memory_tag_remove" ∷ [],
    )
    ∷ ("memory.delete", "memory_delete" ∷ [])
    ∷ ("memory.import", "memory_import_json" ∷ [])
    ∷ (
      "program.mutate",
      "program_import" ∷ "program_set_field" ∷ "program_set_var_ref" ∷ "program_delete"
          ∷ "program_insert_from" ∷ "program_replace_from" ∷ [],
    )
    ∷ ("process.restart", "process_restart" ∷ [])
    ∷ ("persist", "persist" ∷ [])
    ∷ ("scheduler.control", "physical_execution_concurrency_set" ∷ [])
    ∷ (
      "storage.manage",
      "space_next_path" ∷ "space_create" ∷ "space_mount" ∷ "space_unmount" ∷ "space_select_write"
          ∷ "space_copy" ∷ "space_move" ∷ "space_merge" ∷ "space_fsck" ∷ [],
    )
    ∷ (
      "storage.remote.write",
      "remote_space_create" ∷ "remote_space_put" ∷ "remote_space_import" ∷ "remote_space_upsert"
          ∷ "remote_space_delete" ∷ [],
    )
    ∷ (
      "storage.remote.read",
      "remote_space_info" ∷ "remote_space_get" ∷ "remote_space_digest" ∷ "remote_space_list"
          ∷ "remote_space_tag_list" ∷ [],
    )
    ∷ ("artifact.write", "artifact_write" ∷ [])
    ∷ ("artifact.read", "artifact_read" ∷ "artifact_digest" ∷ "artifact_exists" ∷ [])
    ∷ ("mesh.write", "mesh_shared_propose" ∷ "mesh_shared_reconcile" ∷ "mesh_journal_flush" ∷ [])
    ∷ ("mesh.read", "mesh_shared_search" ∷ "mesh_shared_fetch" ∷ "mesh_directory" ∷ [])
    ∷ ("mesh.run", "mesh_structure_run" ∷ "mesh_fanout" ∷ "mesh_route_execution" ∷ [])
    ∷ ("network.raw", "physical_exchange" ∷ [])
    ∷ ("event.emit", "emit_event" ∷ [])
    ∷ ("credential.read", "credential_get" ∷ [])
    ∷ []

-- The capability under which an operation is listed; `""` for the others.
capability_of : Table (List String) → String → String
capability_of [] code = ""
capability_of ((cap, ops) ∷ rest) code = if contains ops code then cap else capability_of rest code

unfoldable pub required_capability : String → String
unfolding capability_of contains
required_capability code = capability_of privileged_ops code

grants : List String → String → Bool
grants [] cap = false
grants (c ∷ rest) cap = (c == cap || c == "kernel.admin") || grants rest cap

unfoldable pub has_capability : Memory → String → Bool
unfolding grants
has_capability m cap = cap == "" || grants m.capabilities cap

unfoldable pub check_primitive_capability : Memory → String → Result (Unit {0})
check_primitive_capability m code =
    let cap = required_capability code in
    if cap == ""
    then ok tt
    else if has_capability m cap
    then ok tt
    else err (failure "capability denied")

abbrev pub remote_denied_caps : List String
remote_denied_caps =
    "kernel.admin" ∷ "credential.read" ∷ "external.private" ∷ "network.raw" ∷ "process.restart"
    ∷ "persist" ∷ "scheduler.control" ∷ "storage.manage" ∷ "storage.remote.write" ∷ "artifact.write"
    ∷ "mesh.write" ∷ "mesh.run" ∷ "memory.delete" ∷ "memory.import" ∷ []

-- remoteDeniedCaps[cap]
unfoldable pub is_remote_denied : String → Bool
unfolding contains
is_remote_denied cap = contains remote_denied_caps cap

-- The body of the loop over the Program.
unfoldable pub validate_op : Memory → Bool → Op → Result (Unit {0})
validate_op m remote op = do
  let cap = required_capability op.code
  reject_if (not (cap == "") && not (has_capability m cap)) (failure "missing capability")
  reject_if (remote && (not (cap == "") && is_remote_denied cap))
      (failure "remote capability denied")

unfoldable pub validate_program : Memory → Bool → List Op → Result (Unit {0})
validate_program m remote [] = ok tt
validate_program m remote (op ∷ rest) =
    validate_op m remote op >>= λ _. validate_program m remote rest

unfoldable pub validate_declared : List String → Result (Unit {0})
validate_declared [] = ok tt
validate_declared (c ∷ rest) =
    reject_if (is_remote_denied c) (failure "declared denied capability") >>= λ _.
    validate_declared rest

abbrev pub is_empty {ℓ} : {A : Type ℓ} → List A → Bool
is_empty [] = true
is_empty (_ ∷ _) = false

module _ (verify : Memory → Bool) where
  unfoldable pub validate_memory_capabilities : Memory → Bool → Result (Unit {0})
  validate_memory_capabilities m remote = do
    validate_program m remote m.program
    if remote
        then (do
          validate_declared m.capabilities
          reject_if ((not (is_empty m.program) || not (is_empty m.trigger)) && not (verify m))
              (failure "invalid capability signature"))
        else ok tt
