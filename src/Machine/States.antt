-- ===== src/Machine/States.antt =====
-- Kernel/src/kernel.go, execPrimitive: the primitives that change the state of a Memory, with the record's
-- physical limits of physical_limits_runtime.go.
use Prim.Native.String.{len}
use memory_ai.Prelude.{
  ◌+◌, String, Bool, true, false, not, List, [], ◌∷◌, ◌++◌, Option, none, some, Result, ok, err,
  ◌==◌, leb, ltb, if◌then◌else◌, contains, failure, is_some,
}
use memory_ai.Prelude.Find.{split_csv}
use memory_ai.Prelude.Table.{Table, get, put}
use memory_ai.Prelude.Text.{trim_space}
use memory_ai.Model.{Op, Memory, Value, Values}
use memory_ai.Frames.{add_texts}
use memory_ai.Fabric.{ensure_memory_record_within_physical_limit}
use memory_ai.Machine.{Action, Next, Host, ◌>>=◌, ◌>>◌, pure, lift, bit, x, set_out, check_out}
use memory_ai.Machine.Targets.{Target, resolve_mutable, need_owner, change_in}

module _ (h : Host) where
  -- fmt.Sprint(v) of a value of the state; the missing one is nil.
  unfoldable pub sprint_at : Table Value → String → String
  sprint_at state key = elim (get state key) [ none ↦ h.sprint Value.null | some v ↦ h.sprint v ]

  unfoldable pub sprint_all : Values → List String
  sprint_all Values.nil = []
  sprint_all (Values.cons v vs) = h.sprint v ∷ sprint_all vs

  unfoldable pub state_list : Option Value → List String
  state_list none = []
  state_list (some Value.null) = []
  state_list (some (Value.boolean _)) = []
  state_list (some (Value.number _)) = []
  state_list (some (Value.text s)) =
      if trim_space s == "" then [] else elim (h.parse_texts s) [ none ↦ split_csv s | some l ↦ l ]
  state_list (some (Value.strings l)) = l
  state_list (some (Value.items vs)) = sprint_all vs
  state_list (some (Value.object _)) = []

  -- The early tests of a value's own bytes, for a text and for a list of them.
  unfoldable pub value_fits : String → Value → Bool
  value_fits key (Value.text s) = leb (len key + len s) h.limits.record_max_bytes
  value_fits key (Value.strings l) = is_some (add_texts h.limits.record_max_bytes (len key) l)
  value_fits key Value.null = true
  value_fits key (Value.boolean _) = true
  value_fits key (Value.number _) = true
  value_fits key (Value.items _) = true
  value_fits key (Value.object _) = true

  unfoldable pub memory_state_candidate_within_physical_limit :
      Memory → String → Value → Result (Table Value)
  memory_state_candidate_within_physical_limit m key value =
      let state = put m.state key value in
      if ltb h.limits.record_max_bytes (len key)
      then err (failure "exceeds physical Memory-record byte ceiling")
      else if not (value_fits key value)
      then err (failure "exceeds physical Memory-record byte ceiling")
      else elim (ensure_memory_record_within_physical_limit h.limits (record m { state = state })) [
        | err e ↦ err e
        | ok _ ↦ ok state
      ]

  -- target.State[key] = value, within the limits, with its bookkeeping.
  unfoldable pub write_state : String → Target → String → Value → Action (Unit {0})
  write_state owner t key value = do
    state ← lift (memory_state_candidate_within_physical_limit t.memory key value)
    change_in owner t (record t.memory { state = state })

  unfoldable pub state_list_append : Op → Action Next
  state_list_append op = do
    a ← x h op.a
    t ← resolve_mutable a
    owner ← need_owner t
    key ← x h op.b
    value ← x h op.c
    write_state owner t key (Value.strings (state_list (get t.memory.state key) ++ value ∷ []))
    pure none

  unfoldable pub append_unseen : String → Target → String → String → Action Bool
  append_unseen owner t key value =
      if contains (state_list (get t.memory.state key)) value
      then pure false
      else write_state owner t key
          (Value.strings (state_list (get t.memory.state key) ++ value ∷ []))
        >> pure true

  unfoldable pub state_list_unique_append : Op → Action Next
  state_list_unique_append op = do
    a ← x h op.a
    t ← resolve_mutable a
    owner ← need_owner t
    key ← x h op.b
    value ← x h op.c
    check_out h op "added_out" (bit (not (contains (state_list (get t.memory.state key)) value)))
    added ← append_unseen owner t key value
    set_out h op "added_out" (bit added)
    pure none

  unfoldable pub state_num_add : Op → Action Next
  state_num_add op = do
    a ← x h op.a
    t ← resolve_mutable a
    owner ← need_owner t
    key ← x h op.b
    delta ← x h op.c
    check_out h op "out" (h.add (sprint_at t.memory.state key) delta)
    write_state owner t key (Value.text (h.add (sprint_at t.memory.state key) delta))
    set_out h op "out" (h.add (sprint_at t.memory.state key) delta)
    pure none

  unfoldable pub state_set : Op → Action Next
  state_set op = do
    a ← x h op.a
    t ← resolve_mutable a
    owner ← need_owner t
    key ← x h op.b
    value ← x h op.c
    write_state owner t key (Value.text value)
    pure none

  unfoldable pub state_cases : Op → Table (Action Next)
  state_cases op =
      ("state_list_append", state_list_append op)
      ∷ ("state_list_unique_append", state_list_unique_append op)
      ∷ ("state_num_add", state_num_add op)
      ∷ ("state_set", state_set op)
      ∷ []
