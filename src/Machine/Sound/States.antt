-- ===== src/Machine/Sound/States.antt =====
-- Kernel/src/kernel.go: the primitives on the state of a Memory keep a machine sound.
use memory_ai.Prelude.{String, List, ◌∷◌}
use memory_ai.Model.{Op, Value}
use memory_ai.Machine.{Host}
use memory_ai.Machine.Targets.{Target}
use memory_ai.Machine.Logic.{
  Origin, Ends, step, step_seq, part, part_seq, fail-Runs, lift-Runs, reads-Runs, get_var-Runs,
  panic-Runs, if-Runs,
}
use memory_ai.Machine.Steps.{
  x-Runs, set_var-Runs, set_out-Runs, check_out-Runs, need_owner-Runs, dirty_in-Runs,
}
use memory_ai.Machine.Writes.{
  change_in-Runs, change-Runs, pure-Ends, resolving, resolving_executable,
}
use memory_ai.Machine.Sound.Texts.{AllFine, Fine}
use memory_ai.Machine.States.{
  write_state, state_list_append, append_unseen, state_list_unique_append, state_num_add, state_set,
  state_cases,
}

pub ruleset write_rules = (
  step, step_seq, part, part_seq, pure-Ends, fail-Runs, lift-Runs, reads-Runs, get_var-Runs,
  if-Runs, x-Runs, set_var-Runs, set_out-Runs, check_out-Runs, need_owner-Runs, resolving,
  resolving_executable, change_in-Runs, change-Runs,
)

module _ (h : Host) (before : Origin) where
  write_state-Ends :
      (ts : List Target) (owner : String) (t : Target) (key : String) (value : Value)
      → Ends h.ceilings before (t ∷ ts) (write_state h owner t key value)
  unfolding write_state
  write_state-Ends ts owner t key value = search write_rules

  append_unseen-Ends :
      (ts : List Target) (owner : String) (t : Target) (key value : String)
      → Ends h.ceilings before (t ∷ ts) (append_unseen h owner t key value)
  unfolding append_unseen
  append_unseen-Ends ts owner t key value = search (write_rules, write_state-Ends)

  state_list_append-Fine : (op : Op) → Fine h before (state_list_append h op)
  unfolding state_list_append
  state_list_append-Fine op = search (write_rules, write_state-Ends) depth 12

  state_list_unique_append-Fine : (op : Op) → Fine h before (state_list_unique_append h op)
  unfolding state_list_unique_append
  state_list_unique_append-Fine op = search (write_rules, append_unseen-Ends) depth 12

  state_num_add-Fine : (op : Op) → Fine h before (state_num_add h op)
  unfolding state_num_add
  state_num_add-Fine op = search (write_rules, write_state-Ends) depth 12

  state_set-Fine : (op : Op) → Fine h before (state_set h op)
  unfolding state_set
  state_set-Fine op = search (write_rules, write_state-Ends) depth 12

  pub state_cases-AllFine : (op : Op) → AllFine h before (state_cases h op)
  unfolding state_cases
  state_cases-AllFine op =
      search
        (state_list_append-Fine, state_list_unique_append-Fine, state_num_add-Fine, state_set-Fine)
