-- ===== src/Machine/Sound/Programs.antt =====
-- Kernel/src/kernel.go: the primitives on the Program of a Memory keep a machine sound.
use memory_ai.Prelude.{ℕ, Bool, List, [], ◌∷◌}
use memory_ai.Model.{Op}
use memory_ai.Machine.{Host}
use memory_ai.Machine.Targets.{Target}
use memory_ai.Machine.Logic.{Origin, Ends, panic-Runs}
use memory_ai.Machine.Steps.{dirty_in-Runs}
use memory_ai.Machine.Writes.{behind, store_touched-Runs}
use memory_ai.Machine.Sound.Texts.{AllFine, Fine}
use memory_ai.Machine.Sound.States.{write_rules}
use memory_ai.Machine.Programs.{
  write_program, program_export, program_import, program_op_get, program_set_field,
  program_set_var_ref, program_len, program_delete, splice, program_insert_from,
  program_replace_from, program_cases,
}

module _ (h : Host) (before : Origin) where
  write_program-Ends :
      (ts : List Target) (t : Target) (program : List Op)
      → Ends h.ceilings before (t ∷ ts) (write_program h t program)
  unfolding write_program
  write_program-Ends ts t program = search write_rules

  program_export-Fine : (op : Op) → Fine h before (program_export h op)
  unfolding program_export
  program_export-Fine op = search write_rules depth 12

  program_import-Fine : (op : Op) → Fine h before (program_import h op)
  unfolding program_import
  program_import-Fine op = search (write_rules, store_touched-Runs, dirty_in-Runs) depth 15

  program_op_get-Fine : (op : Op) → Fine h before (program_op_get h op)
  unfolding program_op_get
  program_op_get-Fine op = search write_rules depth 15

  program_set_field-Fine : (op : Op) → Fine h before (program_set_field h op)
  unfolding program_set_field
  program_set_field-Fine op = search (write_rules, write_program-Ends) depth 12

  program_set_var_ref-Fine : (op : Op) → Fine h before (program_set_var_ref h op)
  unfolding program_set_var_ref
  program_set_var_ref-Fine op = search (write_rules, write_program-Ends) depth 12

  program_len-Fine : (op : Op) → Fine h before (program_len h op)
  unfolding program_len
  program_len-Fine op = search write_rules depth 12

  program_delete-Fine : (op : Op) → Fine h before (program_delete h op)
  unfolding program_delete
  program_delete-Fine op = search write_rules depth 12

  splice-Ends :
      (ts : List Target) (t : Target) (i removed : ℕ) (source : List Op) (start : ℕ)
      (taken : ℕ × Bool)
      → Ends h.ceilings before (t ∷ ts) (splice h t i removed source start taken)
  unfolding splice
  splice-Ends ts t i removed source start (count, wrapped) =
      search (write_rules, panic-Runs, write_program-Ends)

  -- A splice of another record's operations into a target that was found before it.
  splice-behind :
      (u t : Target) (i removed : ℕ) (source : List Op) (start : ℕ) (taken : ℕ × Bool)
      → Ends h.ceilings before (u ∷ t ∷ []) (splice h t i removed source start taken)
  splice-behind u t i removed source start taken =
      behind (splice-Ends [] t i removed source start taken)

  program_insert_from-Fine : (op : Op) → Fine h before (program_insert_from h op)
  unfolding program_insert_from
  program_insert_from-Fine op = search (write_rules, splice-behind) depth 20

  program_replace_from-Fine : (op : Op) → Fine h before (program_replace_from h op)
  unfolding program_replace_from
  program_replace_from-Fine op = search (write_rules, splice-behind) depth 20

  pub program_cases-AllFine : (op : Op) → AllFine h before (program_cases h op)
  unfolding program_cases
  program_cases-AllFine op = search (
    program_export-Fine, program_import-Fine, program_op_get-Fine, program_set_field-Fine,
    program_set_var_ref-Fine, program_len-Fine, program_delete-Fine, program_insert_from-Fine,
    program_replace_from-Fine,
  )
