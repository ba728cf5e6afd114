-- ===== src/Speculative/Conflicts.antt =====
-- Kernel/src/speculative_fabric_commit.go: a transaction that read a stale record is refused.
use mathlib.Core.Path.{subst}
use memory_ai.Prelude.{
  ℕ, String, ◌≡◌, ◌≢◌, ◌⊎◌, refl, ◌∙◌, true, false, ◌||◌, List, [], ◌∷◌, ◌++◌, Option, none, some,
  ◌==◌, eq_iff, arith, contains, if◌then◌else◌, Option-cases, Bool-cases, inl, inr,
}
use memory_ai.Prelude.Table.{Table, get, has, keys, contains-keys}
use memory_ai.Model.{Memory}
use memory_ai.Speculative.{
  Codec, Fabric, MemorySnapshot, TransactionDiff, StructuralPlan, plan_each, plan_change,
  plan_deletion, validate_plan, commit_writes, commit_fabric_snapshot_diff,
  memory_digest_no_runtime_exec,
}
use memory_ai.Speculative.Applied.{CodecLaws}
use memory_ai.Speculative.Commit.{seen, AllFresh}
use memory_ai.Speculative.Plans.{>>=-cons}
use memory_ai.Speculative.Validation.{validate_plan-Checked}
use memory_ai.Speculative.Outcome.{Steps, commit_writes-Steps, outcome, commit-outcome}
use memory_ai.Speculative.Execs.{distinct}

-- The owner and the baseline of the first plan for an id.
baseline_at : List StructuralPlan → String → Option (String × Memory)
baseline_at [] j = none
baseline_at (p ∷ ps) j = if p.id == j then some (p.owner, p.baseline) else baseline_at ps j

baseline_at-append :
    (ps qs : List StructuralPlan) (j : String)
    → baseline_at (ps ++ qs) j
      ≡ elim (baseline_at ps j) [ some r ↦ some r | none ↦ baseline_at qs j ]
unfolding baseline_at
baseline_at-append [] qs j = refl
baseline_at-append (p ∷ ps) qs j = ground (arith, baseline_at-append ps qs j)

module _ (base : Table Memory) (owners : Table String) (d : TransactionDiff) (j o : String)
    (b : Memory) (own : get owners j ≡ some o) (known : get base j ≡ some b) where
  plan_change-base :
      (id : String) (p : StructuralPlan)
      → plan_change base owners d id ≡ some p
      → (p.id ≡ id) × (get owners id ≡ some p.owner) × (get base id ≡ some p.baseline)
  unfolding plan_change
  plan_change-base id p h = ground arith

  plan_deletion-base :
      (id : String) (p : StructuralPlan)
      → plan_deletion base owners d id ≡ some p
      → (p.id ≡ id) × (get owners id ≡ some p.owner) × (get base id ≡ some p.baseline)
  unfolding plan_deletion
  plan_deletion-base id p h = ground arith

  module _ (plan : String → Option StructuralPlan)
      (parts : (id : String) (p : StructuralPlan)
        → plan id ≡ some p
        → (p.id ≡ id) × (get owners id ≡ some p.owner) × (get base id ≡ some p.baseline)) where
    baseline_at-plan_each :
        (ids : List String) (ps : List StructuralPlan)
        → plan_each plan ids ≡ some ps
        → baseline_at ps j ≡ (if contains ids j then some (o, b) else none)
    unfolding plan_each baseline_at contains
    baseline_at-plan_each [] [] h = refl
    baseline_at-plan_each [] (p ∷ ps) h = cc
    baseline_at-plan_each (id ∷ ids) ps h =
        let (p, rest, ep, er, e) = >>=-cons (plan id) (plan_each plan ids) h in
        let ih = baseline_at-plan_each ids rest er in
        let (same, at, of) = parts id p ep in ground (arith, eq_iff p.id j, eq_iff id j)

module _ {c : Codec} (laws : CodecLaws c) (fabric : Fabric) where
  -- A baseline that validates is the digest of the record that is shown.
  Matches : Option (String × Memory) → String → Type 0
  Matches none j = Unit
  Matches (some (o, b)) j =
      (k : ℕ) × (seen c fabric o j ≡ some (memory_digest_no_runtime_exec c b, k))

  Matches-plan :
      (p v : StructuralPlan) (j : String)
      → validate_plan c fabric p ≡ some v
      → p.id ≡ j
      → Matches (some (p.owner, p.baseline)) j
  unfolding Matches
  Matches-plan p v j h e =
      let k = validate_plan-Checked laws fabric p v h in
      (
        k.valid.current.runtime_exec_count,
        ground (
          arith, k.valid.present, k.valid.unchanged, k.valid.matches, k.same_owner, k.same_id,
          k.same_baseline,
        ),
      )

  Matches-plans :
      (ps vs : List StructuralPlan) (j : String)
      → plan_each (validate_plan c fabric) ps ≡ some vs
      → Matches (baseline_at ps j) j
  unfolding plan_each
  Matches-plans [] vs j h = unfold baseline_at Matches in tt
  Matches-plans (p ∷ ps) ws j h =
      let (v, vs, ev, evs, e) =
        >>=-cons (validate_plan c fabric p) (plan_each (validate_plan c fabric) ps) h in
      step p ps j (Bool-cases (p.id == j)) (λ same. Matches-plan p v j ev same)
        (Matches-plans ps vs j evs)
    where
      step :
          (p : StructuralPlan) (ps : List StructuralPlan) (j : String)
          → ((p.id == j) ≡ true) ⊎ ((p.id == j) ≡ false)
          → (p.id ≡ j → Matches (some (p.owner, p.baseline)) j)
          → Matches (baseline_at ps j) j
          → Matches (baseline_at (p ∷ ps) j) j
      step p ps j (inl here) now later = unfold baseline_at in rw here (now ((eq_iff _ _).0 here))
      step p ps j (inr away) now later = unfold baseline_at in rw away later

-- A transaction that changes or deletes a record whose live digest is not the one that it read, or
-- that is no longer shown, is refused, and the Fabric is left as it was. The owner and the baseline
-- of the record are known, and digests see neither a copy nor the counter.
pub stale-refused :
    {c : Codec} (laws : CodecLaws c) (base : MemorySnapshot) (owners : Table String)
    (d : TransactionDiff) (fabric : Fabric) (j o : String) (b : Memory)
    → (has d.changed j || has d.deleted j) ≡ true
    → get owners j ≡ some o
    → get base.memories j ≡ some b
    → ((k : ℕ) → seen c fabric o j ≢ some (memory_digest_no_runtime_exec c b, k))
    → commit_fabric_snapshot_diff c base owners d fabric ≡ (false, fabric)
unfolding commit_fabric_snapshot_diff
stale-refused {c} laws base owners d fabric j o b touched own known stale =
    elim (Option-cases (commit_writes c base owners d fabric)) [
      | inl refused ↦ ground arith
      | inr (after, done) ↦
          let s = commit_writes-Steps c base owners d fabric after done in
          let m =
            Matches-plans laws fabric (s.changes ++ s.deletions) s.structural j s.structural_from in
          absurd (
            clash s (
              unfold Matches in
              subst (λ (r : Option (String × Memory)). Matches laws fabric r j) (planned s) m))
    ]
  where
    planned :
        {after : Fabric} (s : Steps c base.memories owners d fabric after)
        → baseline_at (s.changes ++ s.deletions) j ≡ some (o, b)
    planned s =
        baseline_at-append s.changes s.deletions j
        ∙ ground (
          arith,
          baseline_at-plan_each base.memories owners d j o b own known
              (plan_change base.memories owners d)
              (plan_change-base base.memories owners d j o b own known) (keys d.changed) s.changes
              s.changes_from,
          baseline_at-plan_each base.memories owners d j o b own known
              (plan_deletion base.memories owners d)
              (plan_deletion-base base.memories owners d j o b own known) (keys d.deleted)
              s.deletions s.deletions_from,
          contains-keys d.changed j,
          contains-keys d.deleted j,
        )

    clash :
        {after : Fabric} (s : Steps c base.memories owners d fabric after)
        → (k : ℕ) × (seen c fabric o j ≡ some (memory_digest_no_runtime_exec c b, k))
        → ⊥
    clash s m = stale m.0 m.1

-- No lost update: once a transaction has committed a change of a record, every transaction that had
-- read the record with another digest than the change has, and that changes or deletes it, is
-- refused, and the Fabric stays as the first commit left it. Both know the record's owner, new ids
-- are unpersisted, the counted ids are distinct, and digests see neither a copy nor the counter.
pub no_lost_update :
    {c : Codec} (laws : CodecLaws c) (base₁ base₂ : MemorySnapshot) (owners₁ owners₂ : Table String)
    (d₁ d₂ : TransactionDiff) (fabric : Fabric) (j o : String) (m b : Memory)
    → AllFresh fabric
    → distinct (keys d₁.exec_delta) ≡ true
    → (commit_fabric_snapshot_diff c base₁ owners₁ d₁ fabric).0 ≡ true
    → get owners₁ j ≡ some o
    → get d₁.changed j ≡ some m
    → has d₁.deleted j ≡ false
    → get owners₂ j ≡ some o
    → get base₂.memories j ≡ some b
    → (has d₂.changed j || has d₂.deleted j) ≡ true
    → memory_digest_no_runtime_exec c m ≢ memory_digest_no_runtime_exec c b
    → commit_fabric_snapshot_diff c base₂ owners₂ d₂
        (commit_fabric_snapshot_diff c base₁ owners₁ d₁ fabric).1
      ≡ (false, (commit_fabric_snapshot_diff c base₁ owners₁ d₁ fabric).1)
no_lost_update {c} laws base₁ base₂ owners₁ owners₂ d₁ d₂ fabric j o m b fresh once done own₁ to
      kept own₂ from touched differ =
    stale-refused laws base₂ owners₂ d₂ _ j o b touched own₂ from (λ k e.
      differ (clash k ((commit-outcome laws base₁ owners₁ d₁ fabric fresh once).0 done o j) e))
  where
    clash :
        (k : ℕ) {now : Option (String × ℕ)}
        → now ≡ outcome c owners₁ d₁ o j (seen c fabric o j)
        → now ≡ some (memory_digest_no_runtime_exec c b, k)
        → memory_digest_no_runtime_exec c m ≡ memory_digest_no_runtime_exec c b
    clash k h e = ground (arith, eq_iff o o)
