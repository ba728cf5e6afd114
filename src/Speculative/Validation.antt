-- ===== src/Speculative/Validation.antt =====
-- Kernel/src/speculative_fabric_commit.go: phase 1 reads every record and changes nothing.
use mathlib.Core.Path.{subst}
use memory_ai.Prelude.{
  ℕ, String, ◌≡◌, refl, sym, ap, ◌∙◌, true, false, ◌⊎◌, List, [], ◌∷◌, Option, none, some, ◌==◌,
  eq_iff, arith, All, Bool-cases, inl, inr, if◌then◌else◌, ◌&&◌,
}
use memory_ai.Prelude.Table.{get}
use memory_ai.Model.{Memory}
use memory_ai.Engine.{Engine}
use memory_ai.Engine.View.{view}
use memory_ai.Speculative.{
  Codec, Fabric, StructuralPlan, plan_each, answered, memory_digest_no_runtime_exec,
  physical_owner_memory_locked, validate_plan,
}
use memory_ai.Speculative.Applied.{CodecLaws, observe, observe-physical}
use memory_ai.Speculative.Commit.{Validated, struct_at, left}
use memory_ai.Speculative.Plans.{>>=-some, >>=-cons}

-- A plan v is p with its record read, and the record is as the transaction had read it.
pub record Checked (c : Codec) (fabric : Fabric) (p v : StructuralPlan) : Type 0 where
  pub valid : Validated c fabric v
  pub same_left : (before : Option (String × ℕ)) → left c v before ≡ left c p before
  pub same_owner : v.owner ≡ p.owner
  pub same_id : v.id ≡ p.id
  pub same_baseline : v.baseline ≡ p.baseline

module _ {c : Codec} (laws : CodecLaws c) (fabric : Fabric) where
  Checked-read :
      (p : StructuralPlan) (e : Engine) (m : Memory)
      → get fabric p.owner ≡ some e
      → observe c (view e p.id) ≡ observe c (some m)
      → memory_digest_no_runtime_exec c m ≡ memory_digest_no_runtime_exec c p.baseline
      → Checked c fabric p (record p { current = some m })
  Checked-read p e m present same equal = record {
    valid = record {
      engine = e;
      current = m;
      present = present;
      read = refl;
      unchanged = same;
      matches = equal;
    };
    same_left = λ before. refl;
    same_owner = refl;
    same_id = refl;
    same_baseline = refl;
  }

  pub validate_plan-Checked :
      (p v : StructuralPlan) → validate_plan c fabric p ≡ some v → Checked c fabric p v
  unfolding validate_plan
  validate_plan-Checked p v h =
      let (e, present, h₁) = >>=-some (get fabric p.owner) _ h in
      let (m, read, h₂) = >>=-some (answered (physical_owner_memory_locked c e p.id)) _ h₁ in
      parts e m present (observe-physical laws e p.id m read)
        (Bool-cases
          (memory_digest_no_runtime_exec c m == memory_digest_no_runtime_exec c p.baseline))
        h₂
    where
      parts :
          (e : Engine) (m : Memory)
          → get fabric p.owner ≡ some e
          → observe c (view e p.id) ≡ observe c (some m)
          → ((memory_digest_no_runtime_exec c m == memory_digest_no_runtime_exec c p.baseline)
              ≡ true)
            ⊎ ((memory_digest_no_runtime_exec c m == memory_digest_no_runtime_exec c p.baseline)
                ≡ false)
          → (if memory_digest_no_runtime_exec c m == memory_digest_no_runtime_exec c p.baseline
              then some (record p { current = some m })
              else none)
            ≡ some v
          → Checked c fabric p v
      parts e m present same (inl equal) h₂ =
          subst (Checked c fabric p) (ground arith)
            (Checked-read p e m present same ((eq_iff _ _).0 equal))
      parts e m present same (inr differ) h₂ = absurd (ground arith)

  struct_at-cons :
      (p v : StructuralPlan) (ps vs : List StructuralPlan) (o j : String)
      (before now : Option (String × ℕ))
      → Checked c fabric p v
      → ((now : Option (String × ℕ))
          → struct_at c vs o j before now ≡ struct_at c ps o j before now)
      → struct_at c (v ∷ vs) o j before now ≡ struct_at c (p ∷ ps) o j before now
  unfolding struct_at
  struct_at-cons p v ps vs o j before now k same =
      same (if v.owner == o && v.id == j then left c v before else now)
      ∙ ap (struct_at c ps o j before) (ground (arith, k.same_owner, k.same_id, k.same_left before))

  pub validate-All :
      (ps vs : List StructuralPlan)
      → plan_each (validate_plan c fabric) ps ≡ some vs
      → All (Validated c fabric) vs
        × ((o j : String) (before now : Option (String × ℕ))
            → struct_at c vs o j before now ≡ struct_at c ps o j before now)
  unfolding plan_each
  validate-All [] [] h = (tt, λ o j before now. refl)
  validate-All [] (v ∷ vs) h = cc
  validate-All (p ∷ ps) ws h =
      let (v, vs, ev, evs, e) =
        >>=-cons (validate_plan c fabric p) (plan_each (validate_plan c fabric) ps) h in
      let k = validate_plan-Checked p v ev in
      let (all, same) = validate-All ps vs evs in
      subst
        (λ (l : List StructuralPlan).
          All (Validated c fabric) l
          × ((o j : String) (before now : Option (String × ℕ))
              → struct_at c l o j before now ≡ struct_at c (p ∷ ps) o j before now))
        (sym e)
        (
          (k.valid, all),
          λ o j before now. struct_at-cons p v ps vs o j before now k (same o j before),
        )
