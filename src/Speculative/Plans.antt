-- ===== src/Speculative/Plans.antt =====
-- Kernel/src/speculative_fabric_commit.go: planning and validation, the steps before any write.
use memory_ai.Prelude.{
  ℕ, String, ◌≡◌, refl, ap, ◌∙◌, Bool, false, ◌&&◌, List, [], ◌∷◌, Option, none, some, ◌==◌, eq_iff,
  arith, contains, if◌then◌else◌,
}
use memory_ai.Prelude.Table.{Table, get}
use memory_ai.Model.{Memory}
use memory_ai.Speculative.{
  Codec, TransactionDiff, StructuralPlan, or_zero, ◌>>=◌, plan_change, plan_deletion, plan_each,
}
use memory_ai.Speculative.Commit.{rebase, left, struct_at}

pub >>=-some :
    {A B : Type 0} (m : Option A) (f : A → Option B) {b : B}
    → (m >>= f) ≡ some b
    → (a : A) × (m ≡ some a) × (f a ≡ some b)
>>=-some none f h = cc
>>=-some (some a) f h = (a, refl, h)

-- The owner of an id is the body o.
abbrev pub owned : Table String → String → String → Bool
owned owners j o = elim (get owners j) [ none ↦ false | some q ↦ q == o ]

abbrev pub changed_to : Codec → TransactionDiff → String → Option (String × ℕ) → Option (String × ℕ)
changed_to c d j before = elim (get d.changed j) [
  | none ↦ none
  | some m ↦ rebase c m (or_zero (get d.exec_delta j)) before
]

-- The parts of a bind that succeeds with a list.
pub >>=-cons :
    {A : Type 0} (m : Option A) (rest : Option (List A)) {b : List A}
    → (m >>= λ p. rest >>= λ ps. some (p ∷ ps)) ≡ some b
    → (p : A) × (ps : List A) × (m ≡ some p) × (rest ≡ some ps) × (b ≡ p ∷ ps)
>>=-cons none rest h = cc
>>=-cons (some p) none h = cc
>>=-cons (some p) (some ps) h = (p, ps, refl, refl, ground arith)

module _ (c : Codec) (base : Table Memory) (owners : Table String) (d : TransactionDiff) where
  pub plan_change-parts :
      (id : String) (p : StructuralPlan) (before : Option (String × ℕ))
      → plan_change base owners d id ≡ some p
      → (get owners id ≡ some p.owner) × (p.id ≡ id) × (left c p before ≡ changed_to c d id before)
  unfolding plan_change
  plan_change-parts id p before h = ground arith

  pub plan_deletion-parts :
      (id : String) (p : StructuralPlan) (before : Option (String × ℕ))
      → plan_deletion base owners d id ≡ some p
      → (get owners id ≡ some p.owner) × (p.id ≡ id) × (left c p before ≡ none)
  unfolding plan_deletion
  plan_deletion-parts id p before h = ground arith

module _ (c : Codec) (owners : Table String) (plan : String → Option StructuralPlan)
    (to : String → Option (String × ℕ) → Option (String × ℕ))
    (parts : (id : String) (p : StructuralPlan) (before : Option (String × ℕ))
      → plan id ≡ some p
      → (get owners id ≡ some p.owner) × (p.id ≡ id) × (left c p before ≡ to id before))
    (o j : String) where
  -- A loop of plans sets what its ids show, and leaves the others.
  pub struct_at-plan_each :
      (ids : List String) (ps : List StructuralPlan) (before now : Option (String × ℕ))
      → plan_each plan ids ≡ some ps
      → struct_at c ps o j before now
        ≡ (if contains ids j && owned owners j o then to j before else now)
  unfolding plan_each contains
  struct_at-plan_each [] [] before now h = unfold struct_at in refl
  struct_at-plan_each [] (p ∷ ps) before now h = cc
  struct_at-plan_each (id ∷ ids) ps before now h =
      let (p, rest, ep, er, eb) = >>=-cons (plan id) (plan_each plan ids) h in
      ap (λ l. struct_at c l o j before now) eb
      ∙ step id ids p rest before now ep (
          struct_at-plan_each ids rest before
            (if p.owner == o && p.id == j then left c p before else now) er)
    where
      step :
          (id : String) (ids : List String) (p : StructuralPlan) (rest : List StructuralPlan)
          (before now : Option (String × ℕ))
          → plan id ≡ some p
          → struct_at c rest o j before (if p.owner == o && p.id == j then left c p before else now)
            ≡ (if contains ids j && owned owners j o
                then to j before
                else (if p.owner == o && p.id == j then left c p before else now))
          → struct_at c (p ∷ rest) o j before now
            ≡ (if contains (id ∷ ids) j && owned owners j o then to j before else now)
      step id ids p rest before now ep ih =
          let (owner, same, value) = parts id p before ep in
          unfold struct_at contains in (ih ∙ ground (arith, eq_iff id j, eq_iff p.id j))
