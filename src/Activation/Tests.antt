-- ===== src/Activation/Tests.antt =====
-- A run of the index.
use memory_ai.Prelude.{◌↔◌, true, false, [], ◌∷◌}
use memory_ai.Prelude.Int.{pos}
use memory_ai.Prelude.{ℕ, String, List, ◌≡◌, refl, false, ◌==◌, contains}
use memory_ai.Prelude.Table.{get}
use memory_ai.Prelude.Text.{
  trim_space, sort_strings, insert_sorted, trim_left, trim_right, is_space, is_blank,
}
use memory_ai.Samples.{note}
use memory_ai.Activation.{has_fingerprint}
use memory_ai.Activation.Consistency.{posted, reset-IsConsistent}
use memory_ai.Activation.Features.{
  activation_fingerprint, mix_all, mix, activation_features_for_memory, add_features, add_feature,
  candidates, state_features, index_memory,
}
use memory_ai.Activation.Indexing.{IsFeature, index_memory-posted}
use memory_ai.Activation.{SparseActivationRuntime, reset}
use memory_ai.Activation.History.{
  IsWellFormed, change_nodes, change_nodes-IsWellFormed, removed, replaced,
}

abbrev old_index : SparseActivationRuntime
old_index = record {
  postings = ("tag:memory", ("gone", tt) ∷ []) ∷ [];
  node_feature = [];
  fingerprint = [];
  persistent_base = true;
  nodes = pos 7;
}

change_nodes-IsWellFormed_example : IsWellFormed (
    change_nodes
      (replaced "note" ("id:note" ∷ "tag:memory" ∷ []) 5
        ∷ replaced "note" ("id:note" ∷ []) 6
        ∷ removed "other"
        ∷ [])
      (reset false (pos 0) old_index))
change_nodes-IsWellFormed_example =
    change_nodes-IsWellFormed
      (replaced "note" ("id:note" ∷ "tag:memory" ∷ []) 5
        ∷ replaced "note" ("id:note" ∷ []) 6
        ∷ removed "other"
        ∷ [])
      false (pos 0) old_index

abbrev empty_index : SparseActivationRuntime
empty_index = reset false (pos 0) old_index

abbrev print_zero : ℕ → String
print_zero n = "0"

abbrev first_byte : String → List ℕ
first_byte s = 105 ∷ []

is_new :
    has_fingerprint empty_index "note" (activation_fingerprint print_zero first_byte note) ≡ false
unfolding has_fingerprint reset get activation_fingerprint mix_all mix
    activation_features_for_memory add_features add_feature candidates state_features sort_strings
    insert_sorted trim_space trim_left trim_right is_space is_blank contains
is_new = refl

index_memory-posted_example :
    ((posted (index_memory print_zero first_byte note empty_index).postings "tag:memory" "note"
        ≡ true)
      ↔ (("tag:memory" == "") ≡ false × IsFeature print_zero first_byte note "tag:memory"))
    × (posted (index_memory print_zero first_byte note empty_index).postings "tag:memory" "other"
        ≡ posted empty_index.postings "tag:memory" "other")
index_memory-posted_example =
    index_memory-posted print_zero first_byte note empty_index "tag:memory" "other"
      (reset-IsConsistent false (pos 0) old_index) refl is_new refl
