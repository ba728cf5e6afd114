-- ===== src/Comparison/Tests.antt =====
-- Two Memories that a merge compares, and the comparison of maps that hold "".
use memory_ai.Prelude.{String, ◌≡◌, refl, true, false, [], ◌∷◌, ◌↔◌}
use memory_ai.Prelude.Table.{Table, get}
use memory_ai.Model.{Value, ResourceBudget, Memory}
use memory_ai.Samples.{op, note}
use memory_ai.Comparison.{args_agree, same_args, structural_memory_equal, value_at}
use memory_ai.Comparison.Exact.{ArgsAreMaps, IsMap, IsCopy, structural_memory_equal-exact}

abbrev encode : ResourceBudget → Table Value → Table Value → String
encode budget input output = "{}"

abbrev noted : Memory
noted = record note {
  program = record (op "state_num_add" "note" "hits" "1") { args = ("out", "hits") ∷ [] } ∷ [];
}

abbrev stale : Memory
stale = record noted { content = "stale" }

structural_memory_equal-exact_example :
    (structural_memory_equal encode noted stale ≡ true) ↔ IsCopy encode noted stale
unfolding ArgsAreMaps IsMap get
structural_memory_equal-exact_example =
    structural_memory_equal-exact encode noted stale ((refl, tt), tt)

-- An argument "" that the second map does not have is not noticed, and the comparison is not
-- symmetric.
same_args-asymmetric :
    (same_args (("out", "") ∷ []) (("next", "1") ∷ []) ≡ true)
    × (same_args (("next", "1") ∷ []) (("out", "") ∷ []) ≡ false)
unfolding same_args args_agree value_at get
same_args-asymmetric = (refl, refl)
