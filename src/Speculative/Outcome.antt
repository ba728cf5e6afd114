-- ===== src/Speculative/Outcome.antt =====
-- Kernel/src/speculative_fabric_commit.go: what a commit does, and which commits are refused.
use mathlib.Core.Bool.{false≢true}
use memory_ai.Prelude.{
  ℕ, String, ◌≡◌, refl, sym, ap, ◌∙◌, true, false, ◌&&◌, List, [], ◌∷◌, ◌++◌, Option, none, some,
  arith, All, contains, if◌then◌else◌, Option-cases, inl, inr,
}
use memory_ai.Prelude.Table.{Table, get, has, keys, contains-keys}
use memory_ai.Model.{Memory}
use memory_ai.Speculative.{
  Codec, Fabric, MemorySnapshot, TransactionDiff, StructuralPlan, ExecPlan, or_zero, plan_each,
  when, is_empty, is_counted, plan_change, plan_deletion, plan_exec, validate_plan, validate_count,
  apply_structural, apply_structural_plan_locked, apply_exec, commit_writes,
  commit_fabric_snapshot_diff,
}
use memory_ai.Speculative.Applied.{CodecLaws, bump}
use memory_ai.Speculative.Commit.{seen, AllFresh, struct_at, seen-apply_structural, has-on_body}
use memory_ai.Speculative.Plans.{
  >>=-some, owned, changed_to, plan_change-parts, plan_deletion-parts, struct_at-plan_each,
}
use memory_ai.Speculative.Validation.{validate-All}
use memory_ai.Speculative.Execs.{
  distinct, Still, seen-apply_exec, plan_exec-Counted, validate-Still, Still-moved,
}

-- What the body o shows under the id j after the commit of d, from what it showed before.
abbrev pub outcome :
    Codec
    → Table String
    → TransactionDiff
    → String
    → String
    → Option (String × ℕ)
    → Option (String × ℕ)
outcome c owners d o j before =
    if owned owners j o
    then if has d.deleted j
      then none
      else if has d.changed j
      then changed_to c d j before
      else bump (or_zero (get d.exec_delta j)) before
    else before

struct_at-append :
    (c : Codec) (ps qs : List StructuralPlan) (o j : String) (before now : Option (String × ℕ))
    → struct_at c (ps ++ qs) o j before now
      ≡ struct_at c qs o j before (struct_at c ps o j before now)
unfolding struct_at
struct_at-append c [] qs o j before now = refl
struct_at-append c (p ∷ ps) qs o j before now = struct_at-append c ps qs o j before _

bump-zero : (o : Option (String × ℕ)) → bump 0 o ≡ o
bump-zero none = refl
bump-zero (some (s, k)) = ground arith

has-apply_structural :
    (c : Codec) (ps : List StructuralPlan) (fabric : Fabric) (q : String)
    → has (apply_structural c ps fabric) q ≡ has fabric q
unfolding apply_structural
has-apply_structural c [] fabric q = refl
has-apply_structural c (p ∷ ps) fabric q =
    has-apply_structural c ps _ q ∙ has-on_body (apply_structural_plan_locked c p) fabric p.owner q

-- The lists that a commit that succeeds has built.
pub record Steps (c : Codec) (base : Table Memory) (owners : Table String) (d : TransactionDiff)
    (fabric after : Fabric) : Type 0 where
  pub changes : List StructuralPlan
  pub deletions : List StructuralPlan
  pub counts : List ExecPlan
  pub structural : List StructuralPlan
  pub execs : List ExecPlan
  pub no_created : is_empty d.created ≡ true
  pub changes_from : plan_each (plan_change base owners d) (keys d.changed) ≡ some changes
  pub deletions_from : plan_each (plan_deletion base owners d) (keys d.deleted) ≡ some deletions
  pub counts_from : plan_exec base owners d (keys d.exec_delta) ≡ some counts
  pub structural_from : plan_each (validate_plan c fabric) (changes ++ deletions) ≡ some structural
  pub execs_from : plan_each (validate_count c fabric) counts ≡ some execs
  pub reached : after ≡ apply_exec c execs (apply_structural c structural fabric)

pub commit_writes-Steps :
    (c : Codec) (base : MemorySnapshot) (owners : Table String) (d : TransactionDiff)
    (fabric after : Fabric)
    → commit_writes c base owners d fabric ≡ some after
    → Steps c base.memories owners d fabric after
unfolding commit_writes
commit_writes-Steps c base owners d fabric after h =
    let (_, e₀, h₀) = >>=-some (when (is_empty d.created)) _ h in
    let (a, e₁, h₁) =
      >>=-some (plan_each (plan_change base.memories owners d) (keys d.changed)) _ h₀ in
    let (b, e₂, h₂) =
      >>=-some (plan_each (plan_deletion base.memories owners d) (keys d.deleted)) _ h₁ in
    let (n, e₃, h₃) = >>=-some (plan_exec base.memories owners d (keys d.exec_delta)) _ h₂ in
    let (s, e₄, h₄) = >>=-some (plan_each (validate_plan c fabric) (a ++ b)) _ h₃ in
    let (x, e₅, h₅) = >>=-some (plan_each (validate_count c fabric) n) _ h₄ in
    record {
      changes = a;
      deletions = b;
      counts = n;
      structural = s;
      execs = x;
      no_created = ground arith;
      changes_from = e₁;
      deletions_from = e₂;
      counts_from = e₃;
      structural_from = e₄;
      execs_from = e₅;
      reached = ground arith;
    }

module _ {c : Codec} (laws : CodecLaws c) (base : Table Memory) (owners : Table String)
    (d : TransactionDiff) (fabric after : Fabric) (steps : Steps c base owners d fabric after)
    (fresh : AllFresh fabric) where
  middle : Fabric
  middle = apply_structural c steps.structural fabric

  seen-middle :
      (o j : String)
      → seen c middle o j ≡ (
          if has d.deleted j && owned owners j o
          then none
          else (if has d.changed j && owned owners j o
              then changed_to c d j (seen c fabric o j)
              else seen c fabric o j))
  unfolding middle
  seen-middle o j =
      let before = seen c fabric o j in
      let (all, same) =
        validate-All laws fabric (steps.changes ++ steps.deletions) steps.structural
          steps.structural_from in
      seen-apply_structural laws fabric steps.structural fabric o j all (λ q. refl) fresh
      ∙ same o j before before
      ∙ struct_at-append c steps.changes steps.deletions o j before before
      ∙ struct_at-plan_each c owners (plan_deletion base owners d) (λ k v. none)
          (plan_deletion-parts c base owners d) o j (keys d.deleted) steps.deletions before _
          steps.deletions_from
      ∙ both o j before
    where
      both :
          (o j : String) (before : Option (String × ℕ))
          → (if contains (keys d.deleted) j && owned owners j o
              then none
              else struct_at c steps.changes o j before before)
            ≡ (if has d.deleted j && owned owners j o
                then none
                else (if has d.changed j && owned owners j o
                    then changed_to c d j before
                    else before))
      both o j before = cc (
        contains-keys d.deleted j,
        contains-keys d.changed j,
        struct_at-plan_each c owners (plan_change base owners d) (changed_to c d)
            (plan_change-parts c base owners d) o j (keys d.changed) steps.changes before before
            steps.changes_from,
      )

  has-middle : (q : String) → has middle q ≡ has fabric q
  unfolding middle
  has-middle q = has-apply_structural c steps.structural fabric q

  execs-Still : All (Still c middle) steps.execs
  execs-Still =
      let (all, same, _) = validate-Still laws fabric steps.counts steps.execs steps.execs_from in
      let counted =
        plan_exec-Counted base owners d (keys d.exec_delta) steps.counts steps.counts_from in
      Still-moved c fabric middle steps.execs has-middle
        (λ o k h.
          seen-middle o k
          ∙ untouched o k (sym (counted.planned_ids k) ∙ ap (λ l. contains l k) (sym same) ∙ h))
        all
    where
      untouched :
          (o k : String)
          → (contains (keys d.exec_delta) k && is_counted d k) ≡ true
          → (if has d.deleted k && owned owners k o
              then none
              else (if has d.changed k && owned owners k o
                  then changed_to c d k (seen c fabric o k)
                  else seen c fabric o k))
            ≡ seen c fabric o k
      untouched o k h = unfold is_counted in ground arith

  pub seen-after :
      (o j : String)
      → distinct (keys d.exec_delta) ≡ true
      → seen c after o j ≡ outcome c owners d o j (seen c fabric o j)
  unfolding middle
  seen-after o j once =
      let (_, same, effect) =
        validate-Still laws fabric steps.counts steps.execs steps.execs_from in
      let counted =
        plan_exec-Counted base owners d (keys d.exec_delta) steps.counts steps.counts_from in
      ap (λ w. seen c w o j) steps.reached
      ∙ seen-apply_exec laws steps.execs middle o j (ap distinct same ∙ counted.once once)
          execs-Still
      ∙ effect o j (seen c middle o j)
      ∙ counted.effect o j (seen c middle o j) once
      ∙ merge o j (seen-middle o j) (contains-keys d.exec_delta j)
    where
      merge :
          (o j : String) {now : Option (String × ℕ)}
          → now ≡ (
              if has d.deleted j && owned owners j o
              then none
              else (if has d.changed j && owned owners j o
                  then changed_to c d j (seen c fabric o j)
                  else seen c fabric o j))
          → contains (keys d.exec_delta) j ≡ has d.exec_delta j
          → (if (contains (keys d.exec_delta) j && is_counted d j) && owned owners j o
              then bump (or_zero (get d.exec_delta j)) now
              else now)
            ≡ outcome c owners d o j (seen c fabric o j)
      merge o j m k = unfold is_counted in ground (arith, bump-zero (seen c fabric o j))

-- A commit that succeeds writes, in every body and under every id, exactly the transaction's
-- outcome: a deleted id of that body is gone, a changed one has the changed digest and the live
-- counter advanced by the run's executions, any other one only has its counter advanced, and ids
-- owned elsewhere are untouched. A commit that is refused changes nothing. The bodies' new ids are
-- unpersisted, the counted ids are distinct, and digests see neither a copy nor the counter.
pub commit-outcome :
    {c : Codec} (laws : CodecLaws c) (base : MemorySnapshot) (owners : Table String)
    (d : TransactionDiff) (fabric : Fabric)
    → AllFresh fabric
    → distinct (keys d.exec_delta) ≡ true
    → ((commit_fabric_snapshot_diff c base owners d fabric).0 ≡ true
        → (o j : String)
        → seen c (commit_fabric_snapshot_diff c base owners d fabric).1 o j
          ≡ outcome c owners d o j (seen c fabric o j))
      × ((commit_fabric_snapshot_diff c base owners d fabric).0 ≡ false
          → (commit_fabric_snapshot_diff c base owners d fabric).1 ≡ fabric)
unfolding commit_fabric_snapshot_diff
commit-outcome {c} laws base owners d fabric fresh once =
    elim (Option-cases (commit_writes c base owners d fabric)) [
      | inl refused ↦ (λ h. absurd (false≢true (ground arith)), λ h. ground arith)
      | inr (after, done) ↦
          let landed : (commit_fabric_snapshot_diff c base owners d fabric).1 ≡ after =
            ground arith in
          (
            λ h o j.
                ap (λ w. seen c w o j) landed
                ∙ seen-after laws base.memories owners d fabric after
                    (commit_writes-Steps c base owners d fabric after done) fresh o j once,
            λ h. absurd (false≢true (ground arith)),
          )
    ]
