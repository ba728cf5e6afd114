-- ===== src/Comparison/Exact.antt =====
-- Kernel/src/kernel.go: what the structural comparison of two Memories finds out.
use mathlib.Core.Path.{subst}
use memory_ai.Prelude.{
  ap, String, ◌≡◌, refl, sym, ◌↔◌, Bool, true, false, List, [], ◌∷◌, some, none, eq_iff, eq_refl,
  arith, length,
}
use memory_ai.Prelude.Int.{ℤ, pos, negsuc}
use memory_ai.Prelude.Table.{Table, get}
use memory_ai.Model.{Op, Value, ResourceBudget, Memory}
use memory_ai.Comparison.{
  same_strings, value_at, args_agree, same_args, same_op, same_program, same_int, same_bool,
  structural_memory_equal,
}

same_strings-eq : (xs ys : List String) → same_strings xs ys ≡ true → xs ≡ ys
unfolding same_strings
same_strings-eq [] [] h = refl
same_strings-eq [] (y ∷ ys) h = ground arith
same_strings-eq (x ∷ xs) [] h = ground arith
same_strings-eq (x ∷ xs) (y ∷ ys) h = ground (arith, eq_iff x y, same_strings-eq xs ys)

same_int-eq : (i j : ℤ) → same_int i j ≡ true → i ≡ j
unfolding same_int
same_int-eq (pos m) (pos n) h = ground arith
same_int-eq (pos m) (negsuc n) h = ground arith
same_int-eq (negsuc m) (pos n) h = ground arith
same_int-eq (negsuc m) (negsuc n) h = ground arith

same_bool-eq : (p q : Bool) → same_bool p q ≡ true → p ≡ q
unfolding same_bool
same_bool-eq true q h = ground arith
same_bool-eq false true h = ground arith
same_bool-eq false false h = refl

args_agree-get :
    (a b : Table String) (k v : String)
    → args_agree a b ≡ true
    → get a k ≡ some v
    → value_at b k ≡ v
unfolding args_agree get
args_agree-get [] b k v h g = ground arith
args_agree-get ((j, u) ∷ a) b k v h g =
    ground (arith, eq_iff j k, eq_iff (value_at b j) u, args_agree-get a b k v)

-- Every argument that the first operation gives reads the same in the second.
pub ArgsAgree : Table String → Table String → Type 0
ArgsAgree a b = (length a ≡ length b) × ((k v : String) → get a k ≡ some v → value_at b k ≡ v)

pub OpsAgree : Op → Op → Type 0
OpsAgree x y = (x.code ≡ y.code) × (x.a ≡ y.a) × (x.b ≡ y.b) × (x.c ≡ y.c) × ArgsAgree x.args y.args

unfoldable pub ProgramsAgree : List Op → List Op → Type 0
ProgramsAgree [] [] = Unit
ProgramsAgree [] (y ∷ ys) = ⊥
ProgramsAgree (x ∷ xs) [] = ⊥
ProgramsAgree (x ∷ xs) (y ∷ ys) = OpsAgree x y × ProgramsAgree xs ys

same_args-ArgsAgree : (a b : Table String) → same_args a b ≡ true → ArgsAgree a b
unfolding same_args ArgsAgree
same_args-ArgsAgree a b h = (ground arith, λ k v g. args_agree-get a b k v (ground arith) g)

same_op-OpsAgree : (x y : Op) → same_op x y ≡ true → OpsAgree x y
unfolding same_op OpsAgree
same_op-OpsAgree x y h = (
  ground (arith, eq_iff x.code y.code),
  ground (arith, eq_iff x.a y.a),
  ground (arith, eq_iff x.b y.b),
  ground (arith, eq_iff x.c y.c),
  same_args-ArgsAgree x.args y.args (ground arith),
)

same_program-ProgramsAgree : (xs ys : List Op) → same_program xs ys ≡ true → ProgramsAgree xs ys
unfolding same_program ProgramsAgree
same_program-ProgramsAgree [] [] h = tt
same_program-ProgramsAgree [] (y ∷ ys) h = ground arith
same_program-ProgramsAgree (x ∷ xs) [] h = ground arith
same_program-ProgramsAgree (x ∷ xs) (y ∷ ys) h =
    (same_op-OpsAgree x y (ground arith), same_program-ProgramsAgree xs ys (ground arith))

abbrev pub PartsAgree :
    (ResourceBudget → Table Value → Table Value → String) → Memory → Memory → Type 0
PartsAgree marshal a b =
    (a.id ≡ b.id)
    × (a.layer ≡ b.layer)
    × (a.generation ≡ b.generation)
    × (a.content ≡ b.content)
    × (a.executable ≡ b.executable)
    × (a.parents ≡ b.parents)
    × (a.tags ≡ b.tags)
    × (a.trigger ≡ b.trigger)
    × (a.capabilities ≡ b.capabilities)
    × ProgramsAgree a.program b.program
    × (a.success_history ≡ b.success_history)
    × (a.failure_history ≡ b.failure_history)
    × (a.mutation_variants ≡ b.mutation_variants)
    × (marshal a.budget a.input_pattern a.output_effect
        ≡ marshal b.budget b.input_pattern b.output_effect)

structural_memory_equal-PartsAgree :
    (marshal : ResourceBudget → Table Value → Table Value → String) (a b : Memory)
    → structural_memory_equal marshal a b ≡ true
    → PartsAgree marshal a b
unfolding structural_memory_equal
structural_memory_equal-PartsAgree marshal a b h = (
  ground (arith, eq_iff a.id b.id),
  ground (arith, eq_iff a.layer b.layer),
  same_int-eq a.generation b.generation (ground arith),
  ground (arith, eq_iff a.content b.content),
  same_bool-eq a.executable b.executable (ground arith),
  same_strings-eq a.parents b.parents (ground arith),
  same_strings-eq a.tags b.tags (ground arith),
  same_strings-eq a.trigger b.trigger (ground arith),
  same_strings-eq a.capabilities b.capabilities (ground arith),
  same_program-ProgramsAgree a.program b.program (ground arith),
  same_strings-eq a.success_history b.success_history (ground arith),
  same_strings-eq a.failure_history b.failure_history (ground arith),
  same_strings-eq a.mutation_variants b.mutation_variants (ground arith),
  ground (
    arith,
    eq_iff (marshal a.budget a.input_pattern a.output_effect)
        (marshal b.budget b.input_pattern b.output_effect),
  ),
)

same_strings_refl : (xs : List String) → same_strings xs xs ≡ true
unfolding same_strings
same_strings_refl [] = refl
same_strings_refl (x ∷ xs) = ground (arith, eq_refl x, same_strings_refl xs)

same_strings-true : (xs ys : List String) → xs ≡ ys → same_strings xs ys ≡ true
same_strings-true xs ys e = subst (λ zs. same_strings xs zs ≡ true) e (same_strings_refl xs)

same_int_refl : (i : ℤ) → same_int i i ≡ true
unfolding same_int
same_int_refl (pos n) = ground arith
same_int_refl (negsuc n) = ground arith

same_int-true : (i j : ℤ) → i ≡ j → same_int i j ≡ true
same_int-true i j e = subst (λ k. same_int i k ≡ true) e (same_int_refl i)

same_bool-true : (p q : Bool) → p ≡ q → same_bool p q ≡ true
unfolding same_bool
same_bool-true true q e = sym e
same_bool-true false true e = ground arith
same_bool-true false false e = refl

-- A map has a key once.
unfoldable pub IsMap : Table String → Type 0
IsMap [] = Unit
IsMap ((k, v) ∷ m) = (get m k ≡ none) × IsMap m

unfoldable pub ArgsAreMaps : List Op → Type 0
ArgsAreMaps [] = Unit
ArgsAreMaps (x ∷ xs) = IsMap x.args × ArgsAreMaps xs

args_agree-true :
    (a b : Table String)
    → IsMap a
    → ((k v : String) → get a k ≡ some v → value_at b k ≡ v)
    → args_agree a b ≡ true
unfolding args_agree IsMap get
args_agree-true [] b w h = refl
args_agree-true ((j, u) ∷ a) b w h =
    let head = h j u (ground (arith, eq_refl j)) in
    let rest = args_agree-true a b (w.1) (λ k v g. h k v (ground (arith, eq_iff j k))) in
    ground (arith, eq_iff (value_at b j) u)

same_program-true :
    (xs ys : List Op) → ArgsAreMaps xs → ProgramsAgree xs ys → same_program xs ys ≡ true
unfolding same_program same_op same_args ProgramsAgree OpsAgree ArgsAgree ArgsAreMaps
same_program-true [] [] w h = refl
same_program-true [] (y ∷ ys) w h = ground arith
same_program-true (x ∷ xs) [] w h = ground arith
same_program-true (x ∷ xs) (y ∷ ys) (w, ws) ((hc, ha, hb, hd, (hl, hargs)), hs) =
    let args = args_agree-true x.args y.args w hargs in
    let rest = same_program-true xs ys ws hs in
    ground (arith, eq_iff x.code y.code, eq_iff x.a y.a, eq_iff x.b y.b, eq_iff x.c y.c)

PartsAgree-structural_memory_equal :
    (marshal : ResourceBudget → Table Value → Table Value → String) (a b : Memory)
    → ArgsAreMaps a.program
    → PartsAgree marshal a b
    → structural_memory_equal marshal a b ≡ true
unfolding structural_memory_equal
PartsAgree-structural_memory_equal marshal a b w
      (h1, h2, h3, h4, h5, h6, h7, h8, h9, hp, h10, h11, h12, hm) =
    let e3 = same_int-true a.generation b.generation h3 in
    let e5 = same_bool-true a.executable b.executable h5 in
    let e6 = same_strings-true a.parents b.parents h6 in
    let e7 = same_strings-true a.tags b.tags h7 in
    let e8 = same_strings-true a.trigger b.trigger h8 in
    let e9 = same_strings-true a.capabilities b.capabilities h9 in
    let ep = same_program-true a.program b.program w hp in
    let e10 = same_strings-true a.success_history b.success_history h10 in
    let e11 = same_strings-true a.failure_history b.failure_history h11 in
    let e12 = same_strings-true a.mutation_variants b.mutation_variants h12 in
    ground (
      arith,
      eq_iff a.id b.id,
      eq_iff a.layer b.layer,
      eq_iff a.content b.content,
      eq_iff (marshal a.budget a.input_pattern a.output_effect)
          (marshal b.budget b.input_pattern b.output_effect),
    )

-- What the comparison does not look at, or looks at by itself, is blanked: the signature, the revision,
-- the state, the counter and the time of creation; the Program, the budget and the patterns.
unfoldable pub blanked : Memory → Memory
blanked m = record m {
  capability_sig = "";
  revision = 0;
  state = [];
  runtime_exec_count = 0;
  created_unix = pos 0;
  program = [];
  budget = record {
    max_ops = pos 0;
    max_memory_writes = pos 0;
    max_events = pos 0;
    max_cpu_us = pos 0;
    max_alloc_bytes = pos 0;
    max_heap_growth_bytes = pos 0;
  };
  input_pattern = [];
  output_effect = [];
}

abbrev pub IsCopy : (ResourceBudget → Table Value → Table Value → String) → Memory → Memory → Type 0
IsCopy marshal a b =
    (blanked a ≡ blanked b)
    × ProgramsAgree a.program b.program
    × (marshal a.budget a.input_pattern a.output_effect
        ≡ marshal b.budget b.input_pattern b.output_effect)

PartsAgree-IsCopy :
    (marshal : ResourceBudget → Table Value → Table Value → String) (a b : Memory)
    → PartsAgree marshal a b
    → IsCopy marshal a b
unfolding blanked
PartsAgree-IsCopy marshal a b (h1, h2, h3, h4, h5, h6, h7, h8, h9, hp, h10, h11, h12, hm) = (
  λ i. record (blanked a) {
    id = h1 i;
    layer = h2 i;
    generation = h3 i;
    content = h4 i;
    executable = h5 i;
    parents = h6 i;
    tags = h7 i;
    trigger = h8 i;
    capabilities = h9 i;
    success_history = h10 i;
    failure_history = h11 i;
    mutation_variants = h12 i;
  },
  hp,
  hm,
)

IsCopy-PartsAgree :
    (marshal : ResourceBudget → Table Value → Table Value → String) (a b : Memory)
    → IsCopy marshal a b
    → PartsAgree marshal a b
unfolding blanked
IsCopy-PartsAgree marshal a b (same, hp, hm) = (
  ap (λ m. m.id) same,
  ap (λ m. m.layer) same,
  ap (λ m. m.generation) same,
  ap (λ m. m.content) same,
  ap (λ m. m.executable) same,
  ap (λ m. m.parents) same,
  ap (λ m. m.tags) same,
  ap (λ m. m.trigger) same,
  ap (λ m. m.capabilities) same,
  hp,
  ap (λ m. m.success_history) same,
  ap (λ m. m.failure_history) same,
  ap (λ m. m.mutation_variants) same,
  hm,
)

-- The comparison takes two Memories for equal exactly when three things hold. They are the same record
-- once signature, revision, state, execution counter, time of creation, Program, budget and patterns are
-- blanked in both: every other field counts, whether it is executable included. Their Programs have
-- the same length, and operation by operation the same code and operands, as many arguments, and in the
-- second the value of every argument of the first, where a missing argument reads as "". The encodings
-- of budget and patterns are equal. The arguments of an operation of the first are a map.
pub structural_memory_equal-exact :
    (marshal : ResourceBudget → Table Value → Table Value → String) (a b : Memory)
    → ArgsAreMaps a.program
    → (structural_memory_equal marshal a b ≡ true) ↔ IsCopy marshal a b
structural_memory_equal-exact marshal a b w = (
  λ e. PartsAgree-IsCopy marshal a b (structural_memory_equal-PartsAgree marshal a b e),
  λ c. PartsAgree-structural_memory_equal marshal a b w (IsCopy-PartsAgree marshal a b c),
)
