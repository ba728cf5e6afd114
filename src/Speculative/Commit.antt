-- ===== src/Speculative/Commit.antt =====
-- Kernel/src/speculative_fabric_commit.go: a commit is atomic and writes what the run did.
use mathlib.Core.Path.{subst}
use mathlib.Core.Bool.{false≢true}
use memory_ai.Prelude.{
  ℕ, ◌+◌, String, ◌≡◌, refl, ap, ◌∙◌, ◌&&◌, List, [], ◌∷◌, Option, none, some, ◌==◌, eq_iff, arith,
  All, if◌then◌else◌, Option-cases, Bool-cases, inl, inr,
}
use memory_ai.Prelude.Table.{get, has, get-put}
use memory_ai.Model.{Memory}
use memory_ai.Engine.{Engine}
use memory_ai.Engine.View.{view}
use memory_ai.Speculative.{
  Codec, Fabric, StructuralPlan, on_body, memory_digest_no_runtime_exec, apply_structural,
  apply_structural_plan_locked,
}
use memory_ai.Speculative.Applied.{
  CodecLaws, IsFresh, observe, planned, observe-apply_structural_plan,
  IsFresh-apply_structural_plan,
}

-- What transactions observe of the body o under the id j.
abbrev pub seen : Codec → Fabric → String → String → Option (String × ℕ)
seen c fabric o j = elim (get fabric o) [ none ↦ none | some e ↦ observe c (view e j) ]

-- In every body, what is new is not in the store.
pub record AllFresh (fabric : Fabric) : Type 0 where
  pub fresh : (o : String) (e : Engine) → get fabric o ≡ some e → IsFresh e

pub seen-on_body :
    (c : Codec) (f : Engine → Engine) (fabric : Fabric) (p o j : String) (e : Engine)
    → get fabric p ≡ some e
    → seen c (on_body p f fabric) o j
      ≡ (if p == o then observe c (view (f e) j) else seen c fabric o j)
seen-on_body c f fabric p o j e h = ground (arith, get-put fabric p o (f e))

pub has-on_body :
    (f : Engine → Engine) (fabric : Fabric) (o q : String)
    → has (on_body o f fabric) q ≡ has fabric q
has-on_body f fabric o q = elim (Option-cases (get fabric o)) [
  | inl out ↦ ground arith
  | inr (e, there) ↦ ground (arith, get-put fabric o q (f e), eq_iff o q)
]

-- A record under the counter that is observed now, advanced by n.
abbrev pub rebase : Codec → Memory → ℕ → Option (String × ℕ) → Option (String × ℕ)
rebase c m n none = some (memory_digest_no_runtime_exec c m, 0 + n)
rebase c m n (some (_, k)) = some (memory_digest_no_runtime_exec c m, k + n)

-- What a structural plan leaves, from what was observed before the commit.
abbrev pub left : Codec → StructuralPlan → Option (String × ℕ) → Option (String × ℕ)
left c p before = elim p.changed [ none ↦ none | some m ↦ rebase c m p.exec_delta before ]

-- The plan's record was read, and is still as the transaction had read it.
pub record Validated (c : Codec) (fabric : Fabric) (p : StructuralPlan) : Type 0 where
  pub engine : Engine
  pub current : Memory
  pub present : get fabric p.owner ≡ some engine
  pub read : p.current ≡ some current
  pub unchanged : observe c (view engine p.id) ≡ observe c (some current)
  pub matches : memory_digest_no_runtime_exec c current ≡ memory_digest_no_runtime_exec c p.baseline

-- The structural plans of a list, one after another, on one observation.
unfoldable pub struct_at :
    Codec
    → List StructuralPlan
    → String
    → String
    → Option (String × ℕ)
    → Option (String × ℕ)
    → Option (String × ℕ)
struct_at c [] o j before now = now
struct_at c (p ∷ ps) o j before now =
    struct_at c ps o j before (if p.owner == o && p.id == j then left c p before else now)

module _ {c : Codec} (laws : CodecLaws c) where
  planned-left :
      (fabric : Fabric) (p : StructuralPlan)
      → Validated c fabric p
      → planned c p ≡ left c p (seen c fabric p.owner p.id)
  planned-left fabric p v = ground (arith, v.present, v.read, v.unchanged)

  AllFresh-on_body :
      (fabric : Fabric) (p : StructuralPlan)
      → AllFresh fabric
      → AllFresh (on_body p.owner (apply_structural_plan_locked c p) fabric)
  AllFresh-on_body fabric p h = record {
    fresh = λ o e q. elim (Option-cases (get fabric p.owner)) [
      | inl out ↦ h.fresh o e (ground arith)
      | inr (x, there) ↦
          let f = apply_structural_plan_locked c p in
          elim (Bool-cases (p.owner == o)) [
            | inl here ↦
                let at : f x ≡ e = ground (arith, get-put fabric p.owner o (f x)) in
                subst IsFresh at (IsFresh-apply_structural_plan laws p x (h.fresh p.owner x there))
            | inr away ↦ h.fresh o e (ground (arith, get-put fabric p.owner o (f x)))
          ]
    ];
  }

  -- The fabric that validation saw, and the one that phase 2 has reached.
  pub seen-apply_structural :
      (at : Fabric) (ps : List StructuralPlan) (fabric : Fabric) (o j : String)
      → All (Validated c at) ps
      → ((q : String) → has fabric q ≡ has at q)
      → AllFresh fabric
      → seen c (apply_structural c ps fabric) o j
        ≡ struct_at c ps o j (seen c at o j) (seen c fabric o j)
  unfolding apply_structural struct_at
  seen-apply_structural at [] fabric o j vs same fresh = refl
  seen-apply_structural at (p ∷ ps) fabric o j vs same fresh =
      elim (Option-cases (get fabric p.owner)) [
        | inl out ↦ absurd (false≢true (ground (arith, same p.owner, vs.0.present)))
        | inr (e, there) ↦
            let f = apply_structural_plan_locked c p in
            seen-apply_structural at ps (on_body p.owner f fabric) o j vs.1
              (λ q. has-on_body f fabric p.owner q ∙ same q) (AllFresh-on_body fabric p fresh)
            ∙ ap (struct_at c ps o j (seen c at o j))
                (seen-on_body c f fabric p.owner o j e there ∙ now e there)
      ]
    where
      now :
          (e : Engine)
          → get fabric p.owner ≡ some e
          → (if p.owner == o
              then observe c (view (apply_structural_plan_locked c p e) j)
              else seen c fabric o j)
            ≡ (if p.owner == o && p.id == j then left c p (seen c at o j) else seen c fabric o j)
      now e there = ground (
        arith,
        observe-apply_structural_plan laws p e j (fresh.fresh p.owner e there),
        planned-left at p vs.0,
        eq_iff p.owner o,
        eq_iff p.id j,
      )
