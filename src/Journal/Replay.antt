-- ===== src/Journal/Replay.antt =====
-- Kernel/src/mutation_journal_runtime.go: a body that is loaded again and replays the journal of its
-- pending records shows what it showed before.
use mathlib.Core.Bool.{false≢true}
use memory_ai.Prelude.{
  String, ◌≡◌, refl, sym, ap, ◌∙◌, Bool, true, false, ◌||◌, List, [], ◌∷◌, ◌++◌, Option, none, some,
  ◌==◌, eq_iff, arith, if◌then◌else◌, contains, contains-append, Option-cases, Result-cases,
  Bool-cases, inl, inr, ok, ◌&&◌,
}
use memory_ai.Prelude.Table.{Table, get, has, flag, keys, get-put, get-remove, contains-keys}
use memory_ai.Prelude.Text.{sort_strings, contains-sort_strings}
use memory_ai.Model.{Memory}
use memory_ai.Engine.{Engine, remove_tags}
use memory_ai.Engine.View.{stored, view, strip, structure, IsCoherent}
use memory_ai.Engine.Tags.{untagged, untagged-add_tags, untagged-remove_tags}
use memory_ai.Speculative.{Codec, memory_digest_no_runtime_exec}
use memory_ai.Speculative.Applied.{CodecLaws}
use memory_ai.Journal.{
  Mutation, Payload, dedup, flagged, pending_ids, rebuild_one, rebuild_each, tag_set_of,
  stored_tags, tags_without, rebuild_pending_tag_deltas_locked, snapshot_each,
  snapshot_mutation_journal, restore_one, restore_each, replay, copy_or_blank,
}

contains-dedup : (xs : List String) (j : String) → contains (dedup xs) j ≡ contains xs j
unfolding dedup contains
contains-dedup [] j = refl
contains-dedup (x ∷ xs) j = ground (arith, contains-dedup xs j, contains-dedup xs x, eq_iff x j)

contains-flagged :
    (t : Table Bool) (xs : List String) (j : String)
    → contains (flagged t xs) j ≡ (contains xs j && flag t j)
unfolding flagged contains
contains-flagged t [] j = refl
contains-flagged t (x ∷ xs) j = ground (arith, contains-flagged t xs j, eq_iff x j)

contains-pending_ids :
    (e : Engine) (j : String)
    → contains (pending_ids e) j ≡ (has e.dirty_ids j || (has e.new_ids j || flag e.deleted_ids j))
unfolding pending_ids
contains-pending_ids e j =
    let deleted = flagged e.deleted_ids (keys e.deleted_ids) in
    ground (
      arith,
      contains-dedup (keys e.dirty_ids ++ (keys e.new_ids ++ deleted)) j,
      contains-append (keys e.dirty_ids) (keys e.new_ids ++ deleted) j,
      contains-append (keys e.new_ids) deleted j,
      contains-flagged e.deleted_ids (keys e.deleted_ids) j,
      contains-keys e.dirty_ids j,
      contains-keys e.new_ids j,
      contains-keys e.deleted_ids j,
    )

-- Rebuilding the tag deltas touches nothing else.
untagged-rebuild_one : (id : String) (e : Engine) → untagged (rebuild_one id e) ≡ untagged e
unfolding rebuild_one
untagged-rebuild_one id e = elim (Option-cases (get e.cache id)) [
  | inl none_there ↦ ground (arith, untagged-remove_tags id (stored_tags e id) e)
  | inr (m, there) ↦
      let old = tag_set_of (stored_tags e id) in
      let new = tag_set_of m.tags in
      let e₁ = remove_tags id (tags_without new old) e in
      ground (
        arith,
        untagged-remove_tags id (stored_tags e id) e,
        untagged-remove_tags id (tags_without new old) e,
        untagged-add_tags id (tags_without old new) e₁,
      )
]

untagged-rebuild_each :
    (ids : List String) (e : Engine) → untagged (rebuild_each ids e) ≡ untagged e
unfolding rebuild_each
untagged-rebuild_each [] e = refl
untagged-rebuild_each (id ∷ ids) e =
    untagged-rebuild_each ids (rebuild_one id e) ∙ untagged-rebuild_one id e

module _ (copy : Memory → Memory) where
  -- What a mutation shows under its id.
  abbrev mutated : Mutation → Option Memory
  mutated mut = if mut.deleted then none else some (copy_or_blank copy mut.memory)

  -- What the journal of a body shows under a pending id.
  abbrev journaled : Engine → String → Option Memory
  journaled e id =
      if flag e.deleted_ids id
      then none
      else elim (get e.cache id) [ none ↦ none | some m ↦ some (copy (copy m)) ]

  view-replay :
      (muts : List Mutation) (e : Engine) (j : String)
      → view (replay copy muts e) j ≡ view (restore_each copy muts e) j
  unfolding replay rebuild_pending_tag_deltas_locked view
  view-replay muts e j =
      let r = restore_each copy muts e in
      ground (
        arith,
        untagged-rebuild_each (pending_ids r) (record r { tag_added = []; tag_removed = [] }),
      )

  view-restore_one :
      (mut : Mutation) (e : Engine) (j : String)
      → view (restore_one copy mut e) j ≡ (if mut.id == j then mutated mut else view e j)
  unfolding restore_one view
  view-restore_one mut e j = ground (
    arith,
    get-put e.deleted_ids mut.id j true,
    get-remove e.deleted_ids mut.id j,
    get-put e.cache mut.id j (copy_or_blank copy mut.memory),
    get-remove e.cache mut.id j,
    eq_iff mut.id j,
  )

  -- The first mutation of a snapshot that succeeds.
  snapshot_each-cons :
      (e : Engine) (id : String) (ids : List String) (muts : List Mutation)
      → snapshot_each copy e (id ∷ ids) ≡ ok muts
      → (mut : Mutation) × (rest : List Mutation) × (muts ≡ mut ∷ rest)
        × (snapshot_each copy e ids ≡ ok rest)
        × (mut.id ≡ id)
        × (mutated mut ≡ journaled e id)
        × ((flag e.deleted_ids id || has e.cache id) ≡ true)
  unfolding snapshot_each
  snapshot_each-cons e id ids muts h = elim (Result-cases (snapshot_each copy e ids)) [
    | inr (x, failed) ↦ absurd (false≢true (ground (arith, Option-cases (get e.cache id))))
    | inl (rest, done) ↦ elim (Bool-cases (flag e.deleted_ids id)) [
      | inl gone ↦ (
        record { id = id; deleted = true; memory = none },
        rest,
        ground arith,
        done,
        refl,
        ground arith,
        ground arith,
      )
      | inr kept ↦ elim (Option-cases (get e.cache id)) [
        | inl missing ↦ ground arith
        | inr (m, there) ↦ (
          record { id = id; deleted = false; memory = some (copy m) },
          rest,
          ground arith,
          done,
          refl,
          ground arith,
          ground arith,
        )
      ]
    ]
  ]

  view-restore_each :
      (e : Engine) (ids : List String) (muts : List Mutation) (at : Engine) (j : String)
      → snapshot_each copy e ids ≡ ok muts
      → (view (restore_each copy muts at) j ≡ (if contains ids j then journaled e j else view at j))
        × (contains ids j ≡ true → (flag e.deleted_ids j || has e.cache j) ≡ true)
  unfolding restore_each contains snapshot_each
  view-restore_each e [] muts at j h =
      (ap (λ ms. view (restore_each copy ms at) j) (nil muts h), λ k. ground arith)
    where
      nil : (ms : List Mutation) → ok [] ≡ ok ms → ms ≡ []
      nil [] k = refl
      nil (m ∷ ms) k = ground arith
  view-restore_each e (id ∷ ids) muts at j h =
      let (mut, rest, from, later, same, shown, present) = snapshot_each-cons e id ids muts h in
      let (ih, ok_ids) = view-restore_each e ids rest (restore_one copy mut at) j later in
      (
        ap (λ ms. view (restore_each copy ms at) j) from
            ∙ ih
            ∙ ground (arith, view-restore_one mut at j, same, shown, eq_iff id j),
        λ k. ground (arith, ok_ids, present, eq_iff id j),
      )

-- What of a record outlives the process: its digest without the execution counter.
abbrev pub kept : Codec → Option Memory → Option String
kept c none = none
kept c (some m) = some (memory_digest_no_runtime_exec c m)

kept-copy :
    {c : Codec} (laws : CodecLaws c) (m : Memory) → kept c (some (c.copy m)) ≡ kept c (some m)
kept-copy {c} laws m = ap some (laws.copy_digest m (c.copy m).runtime_exec_count)

kept-structure :
    {c : Codec} (laws : CodecLaws c) (a : Option Memory) (m : Memory)
    → structure a ≡ some (strip m)
    → kept c a ≡ kept c (some m)
kept-structure {c} laws none m h = ground arith
kept-structure {c} laws (some s) m h =
    ap some (sym (laws.exec_digest s 0)) ∙ ap (kept c) h ∙ ap some (laws.exec_digest m 0)

kept-journaled :
    {c : Codec} (laws : CodecLaws c) (e loaded : Engine) (j : String) (pending : Bool)
    → pending ≡ (has e.dirty_ids j || (has e.new_ids j || flag e.deleted_ids j))
    → (pending ≡ true → (flag e.deleted_ids j || has e.cache j) ≡ true)
    → IsCoherent e
    → view loaded j ≡ stored e j
    → kept c (if pending then journaled c.copy e j else view loaded j) ≡ kept c (view e j)
unfolding view
kept-journaled {c} laws e loaded j true p present coherent from_store =
    elim (Option-cases (get e.cache j)) [
      | inl missing ↦ ground (arith, present refl)
      | inr (m, there) ↦ ground (arith, kept-copy laws (c.copy m), kept-copy laws m)
    ]
kept-journaled {c} laws e loaded j false p present coherent from_store =
    elim (Option-cases (get e.cache j)) [
      | inl missing ↦ ground (arith, from_store)
      | inr (m, there) ↦ ground (
        arith,
        from_store,
        kept-structure laws (stored e j) m (coherent.clean j m there (ground arith) (ground arith)),
      )
    ]

-- Crash recovery: a coherent body whose journal was written, and that is loaded again from its
-- store, shows after the replay, under every id, the same record as before the restart (a missing
-- one included) but for its execution counter. Digests without the counter see neither a copy nor
-- the counter.
pub replay-shows :
    {c : Codec} (laws : CodecLaws c) (e loaded : Engine) (base : String) (payload : Payload)
    (j : String)
    → IsCoherent e
    → view loaded j ≡ stored e j
    → snapshot_mutation_journal c.copy e base ≡ ok payload
    → kept c (view (replay c.copy payload.mutations loaded) j) ≡ kept c (view e j)
unfolding snapshot_mutation_journal
replay-shows {c} laws e loaded base payload j coherent from_store written =
    elim (Result-cases (snapshot_each c.copy e (sort_strings (pending_ids e)))) [
      | inr (x, failed) ↦ ground arith
      | inl (muts, done) ↦
          let (shown, present) =
            view-restore_each c.copy e (sort_strings (pending_ids e)) muts loaded j done in
          let same : payload.mutations ≡ muts = ground arith in
          ap (λ ms. kept c (view (replay c.copy ms loaded) j)) same
          ∙ ap (kept c) (view-replay c.copy muts loaded j ∙ shown)
          ∙ kept-journaled laws e loaded j (contains (sort_strings (pending_ids e)) j)
              (contains-sort_strings (pending_ids e) j ∙ contains-pending_ids e j) present coherent
              from_store
    ]
