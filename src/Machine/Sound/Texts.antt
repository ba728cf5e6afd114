-- ===== src/Machine/Sound/Texts.antt =====
-- Kernel/src/kernel.go: the primitives on a Frame alone keep a machine sound.
use memory_ai.Prelude.{ℕ, String, [], Option, none, some, All, failure}
use memory_ai.Prelude.Table.{Table, get}
use memory_ai.Model.{Op, Memory}
use memory_ai.Machine.{Action, Next, Host, pure, fail}
use memory_ai.Machine.Logic.{
  Origin, Runs, Keeps, Ends, step, step_seq, pure-Runs, fail-Runs, lift-Runs, reads-Runs,
  get_var-Runs, get_list-Runs, set_list-Runs, set_output-Runs, if-Runs,
}
use memory_ai.Machine.Steps.{x-Runs, set_var-Runs, set_out-Runs}
use memory_ai.Machine.Texts.{
  jump_to, set_binary, var_default, num_div, jump_if, emit, str_after, str_before, str_join,
  list_get, list_append, list_contains, list_unique_append, sha256_text, variable_cases,
  number_cases, text_cases,
}

pub ruleset frame_rules = (
  step, step_seq, pure-Runs, fail-Runs, lift-Runs, reads-Runs, get_var-Runs, get_list-Runs,
  set_list-Runs, set_output-Runs, if-Runs, x-Runs, set_var-Runs, set_out-Runs,
)

module _ (h : Host) (before : Origin) where
  -- An Action of a primitive from a state with no target at hand.
  abbrev pub Fine : Action Next → Type 0
  Fine m = Ends h.ceilings before [] m

  jump_to-Fine : (labels : Table ℕ) (name : String) → Fine (jump_to labels name)
  unfolding jump_to
  jump_to-Fine labels name = found (get labels name)
    where
      found :
          (o : Option ℕ)
          → Fine (elim o [ none ↦ fail (failure "label missing") | some p ↦ pure (some p) ])
      found none = fail-Runs _
      found (some p) = pure-Runs _

  set_binary-Fine :
      (f : String → String → String) (key a b : String) → Fine (set_binary h f key a b)
  unfolding set_binary
  set_binary-Fine f key a b = search frame_rules

  var_default-Fine : (op : Op) → Fine (var_default h op)
  unfolding var_default
  var_default-Fine op = search frame_rules

  num_div-Fine : (op : Op) → Fine (num_div h op)
  unfolding num_div
  num_div-Fine op = search frame_rules

  jump_if-Fine : (labels : Table ℕ) (op : Op) → Fine (jump_if h labels op)
  unfolding jump_if
  jump_if-Fine labels op = search (frame_rules, jump_to-Fine)

  emit-Fine : (op : Op) → Fine (emit h op)
  unfolding emit
  emit-Fine op = search frame_rules

  str_after-Fine : (op : Op) → Fine (str_after h op)
  unfolding str_after
  str_after-Fine op = search frame_rules

  str_before-Fine : (op : Op) → Fine (str_before h op)
  unfolding str_before
  str_before-Fine op = search frame_rules

  str_join-Fine : (op : Op) → Fine (str_join h op)
  unfolding str_join
  str_join-Fine op = search frame_rules depth 10

  list_get-Fine : (op : Op) → Fine (list_get h op)
  unfolding list_get
  list_get-Fine op = search frame_rules

  list_append-Fine : (op : Op) → Fine (list_append h op)
  unfolding list_append
  list_append-Fine op = search frame_rules depth 10

  list_contains-Fine : (op : Op) → Fine (list_contains h op)
  unfolding list_contains
  list_contains-Fine op = search frame_rules

  list_unique_append-Fine : (op : Op) → Fine (list_unique_append h op)
  unfolding list_unique_append
  list_unique_append-Fine op = search frame_rules depth 10

  sha256_text-Fine : (op : Op) → Fine (sha256_text h op)
  unfolding sha256_text
  sha256_text-Fine op = search frame_rules

  -- Every case of a table of primitives.
  abbrev pub AllFine : Table (Action Next) → Type 0
  AllFine cases = All (λ e. Fine e.1) cases

  pub variable_cases-AllFine :
      (self : Memory) (labels : Table ℕ) (op : Op) → AllFine (variable_cases h self labels op)
  unfolding variable_cases
  variable_cases-AllFine self labels op = search (frame_rules, var_default-Fine)

  pub number_cases-AllFine : (labels : Table ℕ) (op : Op) → AllFine (number_cases h labels op)
  unfolding number_cases
  number_cases-AllFine labels op =
      search (frame_rules, list_get-Fine, set_binary-Fine, num_div-Fine, jump_to-Fine, jump_if-Fine)

  pub text_cases-AllFine : (self : Memory) (op : Op) → AllFine (text_cases h self op)
  unfolding text_cases
  text_cases-AllFine self op = search (
    frame_rules, emit-Fine, str_after-Fine, str_before-Fine, set_binary-Fine, list_append-Fine,
    list_contains-Fine, list_unique_append-Fine, sha256_text-Fine, str_join-Fine,
  )
