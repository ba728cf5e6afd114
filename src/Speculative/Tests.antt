-- ===== src/Speculative/Tests.antt =====
-- Two transactions on one body that both change the record that they read.
use memory_ai.Prelude.{
  ◌≡◌, ◌≢◌, refl, String, ℕ, true, false, [], ◌∷◌, Option, some, none, ◌==◌, arith, ◌||◌, contains,
  ap,
}
use mathlib.Core.Bool.{false≢true}
use memory_ai.Engine.View.{view}
use memory_ai.Prelude.Table.{Table, get, put, remove, has, keys}
use memory_ai.Samples.{note, body}
use memory_ai.Engine.{Engine}
use memory_ai.Speculative.{
  Codec, MemorySnapshot, TransactionDiff, Fabric, memory_digest_no_runtime_exec,
  commit_fabric_snapshot_diff, commit_writes, plan_each, plan_change, plan_deletion, plan_exec,
  plan_count, is_counted, validate_plan, validate_count, physical_owner_memory_locked,
  diff_snapshot, diff_known, diff_created, diff_one,
}
use memory_ai.Speculative.Applied.{CodecLaws}
use memory_ai.Speculative.Commit.{seen, AllFresh}
use memory_ai.Speculative.Execs.{distinct}
use memory_ai.Speculative.Outcome.{outcome, commit-outcome}
use memory_ai.Speculative.Conflicts.{stale-refused, no_lost_update}

abbrev plain : Codec
plain = record { copy = λ m. m; digest = λ m. m.content }

plain_laws : CodecLaws plain
unfolding memory_digest_no_runtime_exec
plain_laws = record { copy_exec = λ m. refl; copy_digest = λ m n. refl; exec_digest = λ m n. refl }

abbrev fabric : Fabric
fabric = ("Memory.mem", body) ∷ []

fabric-AllFresh : AllFresh fabric
unfolding get
fabric-AllFresh = record { fresh = λ o e h. record { unstored = λ id n. ground arith } }

abbrev base : MemorySnapshot
base = record { memories = ("note", note) ∷ []; new_ids = []; deleted_ids = []; dirty_ids = [] }

-- The private engine after a run that executed the record twice and wrote its content.
abbrev run : String → Engine
run content = record body {
  cache = ("note", record note { content = content; runtime_exec_count = 2 }) ∷ [];
}

abbrev first : TransactionDiff
first = diff_snapshot plain base (run "first")

abbrev second : TransactionDiff
second = diff_snapshot plain base (run "second")

abbrev owners : Table String
owners = ("note", "Memory.mem") ∷ []

once : distinct (keys first.exec_delta) ≡ true
unfolding diff_snapshot diff_known diff_created diff_one get put remove
    memory_digest_no_runtime_exec contains
once = refl

commit-outcome_example :
    ((commit_fabric_snapshot_diff plain base owners first fabric).0 ≡ true
      → (o j : String)
      → seen plain (commit_fabric_snapshot_diff plain base owners first fabric).1 o j
        ≡ outcome plain owners first o j (seen plain fabric o j))
    × ((commit_fabric_snapshot_diff plain base owners first fabric).0 ≡ false
        → (commit_fabric_snapshot_diff plain base owners first fabric).1 ≡ fabric)
commit-outcome_example = commit-outcome plain_laws base owners first fabric fabric-AllFresh once

-- The first transaction commits.
first_commits : (commit_fabric_snapshot_diff plain base owners first fabric).0 ≡ true
unfolding diff_snapshot diff_known diff_created diff_one get put remove
    memory_digest_no_runtime_exec commit_fabric_snapshot_diff commit_writes plan_each plan_change
    plan_deletion plan_exec plan_count is_counted validate_plan validate_count
    physical_owner_memory_locked
first_commits = refl

change : get first.changed "note" ≡ some (record note { content = "first"; runtime_exec_count = 2 })
unfolding diff_snapshot diff_known diff_created diff_one get put remove
    memory_digest_no_runtime_exec
change = refl

kept : has first.deleted "note" ≡ false
unfolding diff_snapshot diff_known diff_created diff_one get put remove
    memory_digest_no_runtime_exec
kept = refl

touched : (has second.changed "note" || has second.deleted "note") ≡ true
unfolding diff_snapshot diff_known diff_created diff_one get put remove
    memory_digest_no_runtime_exec
touched = refl

own : get owners "note" ≡ some "Memory.mem"
unfolding get
own = refl

known : get base.memories "note" ≡ some note
unfolding get
known = refl

changed_content :
    memory_digest_no_runtime_exec plain (record note { content = "first"; runtime_exec_count = 2 })
    ≢ memory_digest_no_runtime_exec plain note
unfolding memory_digest_no_runtime_exec
changed_content h = false≢true (ap (λ s. s == "") h)

no_lost_update_example :
    commit_fabric_snapshot_diff plain base owners second
      (commit_fabric_snapshot_diff plain base owners first fabric).1
    ≡ (false, (commit_fabric_snapshot_diff plain base owners first fabric).1)
no_lost_update_example =
    no_lost_update plain_laws base base owners owners first second fabric "note" "Memory.mem"
      (record note { content = "first"; runtime_exec_count = 2 }) note fabric-AllFresh once
      first_commits own change kept own known touched changed_content

-- The same record, written meanwhile by someone else.
abbrev written : Fabric
written = ("Memory.mem", run "other") ∷ []

written_differs :
    (k : ℕ)
    → seen plain written "Memory.mem" "note" ≢ some (memory_digest_no_runtime_exec plain note, k)
unfolding get memory_digest_no_runtime_exec view
written_differs k h =
    false≢true (ap (λ (o : Option (String × ℕ)). elim o [ none ↦ false | some (s, _) ↦ s == "" ]) h)

stale-refused_example :
    commit_fabric_snapshot_diff plain base owners second written ≡ (false, written)
stale-refused_example =
    stale-refused plain_laws base owners second written "note" "Memory.mem" note touched own known
      written_differs
