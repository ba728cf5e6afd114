-- ===== src/Activation/Features.antt =====
-- Kernel/src/activation_runtime.go: the features by which a Memory is found, their fingerprint, and the
-- indexing of a Memory. fmt.Sprint of a float64 is the parameter `print_number`, and the bytes of a
-- Go string are the parameter `bytes`.
use Prim.Native.Nat.{bit_xor}
use Prim.Native.String as Str
use memory_ai.Prelude.{
  ℕ, ◌*◌, ◌%◌, ◌^◌, String, ◌≡◌, true, false, ◌&&◌, ◌||◌, not, List, [], ◌∷◌, ◌++◌, map, Option,
  none, some, ◌==◌, eq_iff, arith, contains, if◌then◌else◌,
}
use memory_ai.Prelude.Table.{Table, get, keys}
use memory_ai.Prelude.Text.{trim_space, sort_strings}
use memory_ai.Model.{Value, Memory}
use memory_ai.Activation.{SparseActivationRuntime, replace_node}

-- The function `add`; `seen` is the set of features so far.
unfoldable pub add_feature : List String → String → List String
add_feature seen x = let t = trim_space x in if t == "" || contains seen t then seen else t ∷ seen

unfoldable pub add_features : List String → List String → List String
add_features seen [] = seen
add_features seen (x ∷ xs) = add_features (add_feature seen x) xs

module _ (print_number : ℕ → String) (bytes : String → List ℕ) where
  unfoldable pub exact_index_value : Value → Option String
  exact_index_value Value.null = none
  exact_index_value (Value.boolean true) = some "true"
  exact_index_value (Value.boolean false) = some "false"
  exact_index_value (Value.number n) = some (print_number n)
  exact_index_value (Value.text s) = some s
  exact_index_value (Value.strings l) = none
  exact_index_value (Value.items l) = none
  exact_index_value (Value.object o) = none

  -- What is added for one key of the state.
  unfoldable pub key_features : Table Value → String → List String
  key_features state k = Str.◌++◌ "state-key:" k ∷ elim (get state k) [
    | none ↦ []
    | some v ↦ elim (exact_index_value v) [
      | none ↦ []
      | some t ↦ Str.◌++◌ "state-kv:" (Str.◌++◌ k (Str.◌++◌ "=" t)) ∷ []
    ]
  ]

  unfoldable pub state_features : Table Value → List String → List String
  state_features state [] = []
  state_features state (k ∷ ks) = key_features state k ++ state_features state ks

  -- The calls of `add`, in their order.
  unfoldable pub candidates : Memory → List String
  candidates m =
      Str.◌++◌ "id:" m.id
      ∷ (map (Str.◌++◌ "tag:") m.tags
          ++ (map (Str.◌++◌ "trigger:") m.trigger
              ++ state_features m.state (sort_strings (keys m.state))))

  unfoldable pub activation_features_for_memory : Memory → List String
  activation_features_for_memory m = sort_strings (add_features [] (candidates m))

  unfoldable pub mix : ℕ → List ℕ → ℕ
  mix h [] = h
  mix h (b ∷ bs) = mix (bit_xor h b * 1099511628211 % 2 ^ 64) bs

  unfoldable pub mix_all : ℕ → List String → ℕ
  mix_all h [] = h
  mix_all h (f ∷ fs) = mix_all (mix h (bytes f)) fs

  unfoldable pub activation_fingerprint : Memory → ℕ
  activation_fingerprint m = mix_all 1469598103934665603 (activation_features_for_memory m)

  unfoldable pub index_memory : Memory → SparseActivationRuntime → SparseActivationRuntime
  index_memory m = replace_node m.id (activation_features_for_memory m) (activation_fingerprint m)

contains-add_feature :
    (seen : List String) (x f : String)
    → contains (add_feature seen x) f ≡ (contains seen f || trim_space x == f && not (f == ""))
unfolding add_feature contains
contains-add_feature seen x f =
    ground (arith, eq_iff (trim_space x) f, eq_iff (trim_space x) "", eq_iff f "")

pub contains-add_features :
    (seen xs : List String) (f : String)
    → contains (add_features seen xs) f
      ≡ (contains seen f || contains (map trim_space xs) f && not (f == ""))
unfolding add_features contains
contains-add_features seen [] f = ground arith
contains-add_features seen (x ∷ xs) f =
    ground (arith, contains-add_features (add_feature seen x) xs f, contains-add_feature seen x f)
