-- ===== src/Machine/Records.antt =====
-- Kernel/src/kernel.go, execPrimitive: the primitives that change the history and the tags of a Memory, and
-- that delete one.
use Prim.Native.String.{len}
use memory_ai.Prelude.{
  String, Bool, true, false, List, [], ◌∷◌, ◌++◌, Option, none, some, ok, err, ◌==◌, ltb,
  if◌then◌else◌, contains, failure, reject_if,
}
use memory_ai.Prelude.Table.{Table, get, put}
use memory_ai.Prelude.Text.{trim_space}
use memory_ai.Model.{Op, Memory}
use memory_ai.Engine.{
  on_body, resolve_id_local, tag_delta_add_locked, tag_delta_remove_locked, delete_locked,
}
use memory_ai.Fabric.{without, ensure_memory_record_within_physical_limit}
use memory_ai.Machine.{
  done, Action, Next, Host, ◌>>=◌, ◌>>◌, pure, lift, arg, bit, x, set_out, check_out,
}
use memory_ai.Machine.Targets.{
  Target, note_removed, resolve_mutable, need_owner, owner_of, on_fabric, change_in,
}

unfoldable pub history_of : String → Memory → Option (List String)
history_of field m =
    if field == "success_history"
    then some m.success_history
    else if field == "failure_history"
    then some m.failure_history
    else if field == "mutation_variants"
    then some m.mutation_variants
    else none

unfoldable pub with_history : String → List String → Memory → Memory
with_history field l m =
    if field == "success_history"
    then record m { success_history = l }
    else if field == "failure_history"
    then record m { failure_history = l }
    else record m { mutation_variants = l }

-- A deletion in the body at a path, where it shows the id; whether it did.
unfoldable pub delete_at : String → String → Action Bool
delete_at p id s = elim (get s.fabric.bodies p) [
  | none ↦ done false s
  | some e ↦
      let (r, e') = resolve_id_local e id in
      elim r [
        | err _ ↦
            done false (record s { fabric = record s.fabric { bodies = put s.fabric.bodies p e' } })
        | ok m ↦ done true (
            note_removed p (trim_space id) m (record s {
              fabric = record s.fabric { bodies = put s.fabric.bodies p (delete_locked id m e') };
            }))
      ]
]

module _ (h : Host) where
  -- A value of a record that is longer than a record may be.
  unfoldable pub check_record_bytes : String → Action (Unit {0})
  check_record_bytes value = lift (
      reject_if (ltb h.limits.record_max_bytes (len value))
        (failure "exceeds physical Memory-record byte ceiling"))

  unfoldable pub append_history :
      String → Target → String → String → List String → Action (Unit {0})
  append_history owner t field value current = if contains current value then pure tt else (do
    lift (
        ensure_memory_record_within_physical_limit h.limits
          (with_history field (current ++ value ∷ []) t.memory))
    change_in owner t (with_history field (current ++ value ∷ []) t.memory))

  unfoldable pub memory_history_append : Op → Action Next
  memory_history_append op = do
    a ← x h op.a
    t ← resolve_mutable a
    owner ← need_owner t
    value ← x h op.b
    field ← x h (arg op "field")
    if trim_space value == "" then pure none else (do
      check_record_bytes (trim_space value)
      current ← lift (elim (history_of (trim_space field) t.memory) [
        | none ↦ err (failure "unknown Memory history field")
        | some l ↦ ok l
      ])
      append_history owner t (trim_space field) (trim_space value) current
      pure none)

  unfoldable pub add_tag : String → Target → String → Action (Unit {0})
  add_tag owner t tag = if contains t.memory.tags tag then pure tt else (do
    lift (
        ensure_memory_record_within_physical_limit h.limits
          (record t.memory { tags = t.memory.tags ++ tag ∷ [] }))
    change_in owner t (record t.memory { tags = t.memory.tags ++ tag ∷ [] })
    on_fabric (on_body owner (tag_delta_add_locked t.memory.id tag)))

  unfoldable pub memory_tag_add : Op → Action Next
  memory_tag_add op = do
    a ← x h op.a
    t ← resolve_mutable a
    owner ← need_owner t
    tag ← x h op.b
    if tag == "" then pure none else (do check_record_bytes tag; add_tag owner t tag; pure none)

  unfoldable pub memory_tag_remove : Op → Action Next
  memory_tag_remove op = do
    a ← x h op.a
    t ← resolve_mutable a
    owner ← need_owner t
    tag ← x h op.b
    if contains t.memory.tags tag
        then (do
          change_in owner t (record t.memory { tags = without tag t.memory.tags })
          on_fabric (on_body owner (tag_delta_remove_locked t.memory.id tag)))
        else pure tt
    pure none

  unfoldable pub memory_delete : Op → Action Next
  memory_delete op = do
    id ← x h op.a
    check_out h op "ok_out" "1"
    owner ← owner_of id
    deleted ← elim owner [ none ↦ pure false | some p ↦ delete_at p id ]
    set_out h op "ok_out" (bit deleted)
    pure none

  unfoldable pub record_cases : Op → Table (Action Next)
  record_cases op =
      ("memory_history_append", memory_history_append op)
      ∷ ("memory_tag_add", memory_tag_add op)
      ∷ ("memory_tag_remove", memory_tag_remove op)
      ∷ ("memory_delete", memory_delete op)
      ∷ []
