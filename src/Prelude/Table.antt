-- ===== src/Prelude/Table.antt =====
-- Go maps with text keys, as association lists without duplicate keys.
-- Go leaves the order of `range` open: the loops that matter sort their keys, or are shown not to
-- depend on it.
use Prim.Native.String.{String}
use mathlib.Core.Path.{◌≡◌, refl}
use mathlib.Core.Bool.{Bool, false}
use mathlib.Core.Option.{Option, none, some}
use mathlib.Core.List.{List, [], ◌∷◌, map}
use native.Mathlib.Omega.{arith}
use text.Mathlib.Text.{◌==◌}
use text.Mathlib.TextEquality.{eq_iff}
use text.Mathlib.TextPositions.{eq_refl}
use memory_ai.Prelude.Lists.{contains}
use memory_ai.Prelude.Tests.{if◌then◌else◌, is_some}

abbrev pub Table {ℓ} : Type ℓ → Type ℓ
Table V = List (String × V)

module _ {ℓ} {V : Type ℓ} where
  -- v, ok := m[k]
  unfoldable pub get : Table V → String → Option V
  get [] k = none
  get ((j, v) ∷ m) k = if j == k then some v else get m k

  -- delete(m, k)
  unfoldable pub remove : Table V → String → Table V
  remove [] k = []
  remove ((j, v) ∷ m) k = let rest = remove m k in if j == k then rest else (j, v) ∷ rest

  -- m[k] = v
  unfoldable pub put : Table V → String → V → Table V
  put m k v = (k, v) ∷ remove m k

  abbrev pub has : Table V → String → Bool
  has m k = is_some (get m k)

  abbrev pub keys : Table V → List String
  keys m = map (λ e. e.0) m

  pub get-remove :
      (m : Table V) (k j : String) → get (remove m k) j ≡ (if k == j then none else get m j)
  unfolding get remove
  get-remove [] k j = ground arith
  get-remove ((i, v) ∷ m) k j = ground (arith, get-remove m k j, eq_iff i k, eq_iff i j, eq_iff k j)

  pub get-put :
      (m : Table V) (k j : String) (v : V)
      → get (put m k v) j ≡ (if k == j then some v else get m j)
  unfolding get put
  get-put m k j v = ground (arith, get-remove m k j)

pub get-empty {ℓ} : {V : Type ℓ} (k : String) → get {V = V} [] k ≡ none
unfolding get
get-empty k = refl

-- The keys are those under which a value is found.
pub contains-keys {ℓ} : {V : Type ℓ} (m : Table V) (k : String) → contains (keys m) k ≡ has m k
unfolding get contains
contains-keys [] k = refl
contains-keys ((j, v) ∷ m) k = ground (arith, contains-keys m k)

-- A Go set: `map[string]bool`, whose missing keys read `false`.
abbrev pub flag : Table Bool → String → Bool
flag m k = elim (get m k) [ none ↦ false | some b ↦ b ]

pub ruleset table_laws = (get-remove, get-put, get-empty, eq_refl)
