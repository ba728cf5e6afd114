-- ===== src/Comparison.antt =====
-- Kernel/src/kernel.go: the structural comparison of two Memories, with which a merge of one body into
-- another tells a record that it already has from a conflict. A Memory is never nil here. Go's
-- encoding/json is the parameter `marshal`.
mod Exact
mod Tests
use memory_ai.Prelude.{
  ℕ, String, ◌≡◌, refl, sym, ◌↔◌, Bool, true, false, ◌&&◌, List, [], ◌∷◌, Option, none, some, ◌==◌,
  eq_iff, eq_refl, arith, leb, length, if◌then◌else◌,
}
use memory_ai.Prelude.Int.{ℤ, pos, negsuc}
use memory_ai.Prelude.Table.{Table, get}
use memory_ai.Model.{Op, Value, ResourceBudget, Memory}

unfoldable pub same_strings : List String → List String → Bool
same_strings [] [] = true
same_strings [] (y ∷ ys) = false
same_strings (x ∷ xs) [] = false
same_strings (x ∷ xs) (y ∷ ys) = x == y && same_strings xs ys

-- m[k], which is "" for a key that m does not have.
unfoldable pub value_at : Table String → String → String
value_at m k = elim (get m k) [ none ↦ "" | some v ↦ v ]

-- The loop `for k, v := range a`.
unfoldable pub args_agree : Table String → Table String → Bool
args_agree [] b = true
args_agree ((k, v) ∷ a) b = value_at b k == v && args_agree a b

unfoldable pub same_args : Table String → Table String → Bool
same_args a b = leb (length a) (length b) && leb (length b) (length a) && args_agree a b

unfoldable pub same_op : Op → Op → Bool
same_op x y = x.code == y.code && x.a == y.a && x.b == y.b && x.c == y.c && same_args x.args y.args

unfoldable pub same_program : List Op → List Op → Bool
same_program [] [] = true
same_program [] (y ∷ ys) = false
same_program (x ∷ xs) [] = false
same_program (x ∷ xs) (y ∷ ys) = same_op x y && same_program xs ys

-- a.Generation == b.Generation
unfoldable pub same_int : ℤ → ℤ → Bool
same_int (pos m) (pos n) = leb m n && leb n m
same_int (pos m) (negsuc n) = false
same_int (negsuc m) (pos n) = false
same_int (negsuc m) (negsuc n) = leb m n && leb n m

-- a.Executable == b.Executable
unfoldable pub same_bool : Bool → Bool → Bool
same_bool true b = b
same_bool false true = false
same_bool false false = true

unfoldable pub structural_memory_equal :
    (ResourceBudget → Table Value → Table Value → String) → Memory → Memory → Bool
structural_memory_equal marshal a b =
    a.id == b.id
    && a.layer == b.layer
    && same_int a.generation b.generation
    && a.content == b.content
    && same_bool a.executable b.executable
    && same_strings a.parents b.parents
    && same_strings a.tags b.tags
    && same_strings a.trigger b.trigger
    && same_strings a.capabilities b.capabilities
    && same_program a.program b.program
    && same_strings a.success_history b.success_history
    && same_strings a.failure_history b.failure_history
    && same_strings a.mutation_variants b.mutation_variants
    && marshal a.budget a.input_pattern a.output_effect
      == marshal b.budget b.input_pattern b.output_effect
