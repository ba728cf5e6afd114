-- ===== src/Journal.antt =====
-- Kernel/src/mutation_journal_runtime.go, persistence_runtime.go: the journal of a body. The records
-- that differ from the store are written as one payload into one of two slots at the end of the
-- body's file, in turns; loading a body reads the newest slot that is whole and replays it.
-- File access and the zip container are outside: a Region is the pair of slots as read. A slot keeps
-- its fields; their layout in bytes is left out. encoding/json and crypto/sha256 are parameters.
pub mod Replay
pub mod Slots
mod Tests
use memory_ai.Prelude.{
  ℕ, ◌+◌, String, Bool, true, false, ◌&&◌, ◌||◌, not, List, [], ◌∷◌, ◌++◌, Option, none, some, ◌==◌,
  leb, ltb, nat_eq, if◌then◌else◌, contains, Error, Result, ok, err, eof, unavailable, failure,
}
use memory_ai.Prelude.Table.{Table, get, put, remove, flag, keys}
use memory_ai.Prelude.Text.{sort_strings}
use memory_ai.Model.{Memory}
use memory_ai.Prelude.Int.{pos}
use memory_ai.Engine.{Engine, add_tags, remove_tags}

-- A nil Memory is none.
pub record Mutation : Type 0 where
  pub id : String
  pub deleted : Bool
  pub memory : Option Memory

pub record Payload : Type 0 where
  pub version : ℕ
  pub base : String
  pub mutations : List Mutation

-- A map[string]bool as the list of its keys.
unfoldable pub dedup : List String → List String
dedup [] = []
dedup (x ∷ xs) = let rest = dedup xs in if contains rest x then rest else x ∷ rest

-- for id, yes := range ids { if yes … }
unfoldable pub flagged : Table Bool → List String → List String
flagged t [] = []
flagged t (x ∷ xs) = let rest = flagged t xs in if flag t x then x ∷ rest else rest

-- The ids that differ from the store.
unfoldable pub pending_ids : Engine → List String
pending_ids e =
    dedup (keys e.dirty_ids ++ (keys e.new_ids ++ flagged e.deleted_ids (keys e.deleted_ids)))

-- for tag := range from { if !minus[tag] … }, on the tags of two records.
unfoldable pub tags_without : List String → List String → List String
tags_without minus [] = []
tags_without minus (t ∷ ts) =
    let rest = tags_without minus ts in if contains minus t then rest else t ∷ rest

-- tagSet
abbrev pub tag_set_of : List String → List String
tag_set_of tags = dedup (tags_without ("" ∷ []) tags)

-- The persisted tags of an id, none of them where the store has no record.
abbrev pub stored_tags : Engine → String → List String
stored_tags e id = elim (e.store.get_id id) [ ok m ↦ m.tags | err _ ↦ [] ]

-- The loop over the pending ids.
unfoldable pub rebuild_one : String → Engine → Engine
rebuild_one id e =
    if flag e.deleted_ids id then remove_tags id (stored_tags e id) e else elim (get e.cache id) [
      | none ↦ e
      | some current ↦
          let old_tags = tag_set_of (stored_tags e id) in
          let new_tags = tag_set_of current.tags in
          add_tags id (tags_without old_tags new_tags)
            (remove_tags id (tags_without new_tags old_tags) e)
    ]

unfoldable pub rebuild_each : List String → Engine → Engine
rebuild_each [] e = e
rebuild_each (id ∷ ids) e = rebuild_each ids (rebuild_one id e)

unfoldable pub rebuild_pending_tag_deltas_locked : Engine → Engine
rebuild_pending_tag_deltas_locked e =
    rebuild_each (pending_ids e) (record e { tag_added = []; tag_removed = [] })

abbrev pub is_any : List Mutation → Bool
is_any [] = false
is_any (_ ∷ _) = true

abbrev pub no_values : Memory
no_values = record {
  id = "";
  layer = "";
  generation = pos 0;
  parents = [];
  tags = [];
  content = "";
  executable = false;
  input_pattern = [];
  output_effect = [];
  success_history = [];
  failure_history = [];
  mutation_variants = [];
  trigger = [];
  capabilities = [];
  capability_sig = "";
  budget = record {
    max_ops = pos 0;
    max_memory_writes = pos 0;
    max_events = pos 0;
    max_cpu_us = pos 0;
    max_alloc_bytes = pos 0;
    max_heap_growth_bytes = pos 0;
  };
  revision = 0;
  program = [];
  state = [];
  runtime_exec_count = 0;
  created_unix = pos 0;
}

-- What restoreMutationJournal did with the journal.
pub data Restored : Type 0 where
  nothing replayed cleared : Restored

module _ (copy : Memory → Memory) where
  -- The loop over the ordered ids.
  unfoldable pub snapshot_each : Engine → List String → Result (List Mutation)
  snapshot_each e [] = ok []
  snapshot_each e (id ∷ ids) =
      let rest = snapshot_each e ids in
      if flag e.deleted_ids id
      then elim rest [
        | err x ↦ err x
        | ok ms ↦ ok (record { id = id; deleted = true; memory = none } ∷ ms)
      ]
      else elim (get e.cache id) [
        | none ↦ err (failure "dirty Memory missing from cache")
        | some m ↦ elim rest [
          | err x ↦ err x
          | ok ms ↦ ok (record { id = id; deleted = false; memory = some (copy m) } ∷ ms)
        ]
      ]

  unfoldable pub snapshot_mutation_journal : Engine → String → Result Payload
  snapshot_mutation_journal e base = elim (snapshot_each e (sort_strings (pending_ids e))) [
    | err x ↦ err x
    | ok ms ↦ ok (record { version = 1; base = base; mutations = ms })
  ]

  -- Copying a nil record makes one with no values.
  abbrev pub copy_or_blank : Option Memory → Memory
  copy_or_blank none = no_values
  copy_or_blank (some m) = copy m

  unfoldable pub restore_one : Mutation → Engine → Engine
  restore_one mut e =
      if mut.deleted
      then record e {
        cache = remove e.cache mut.id;
        new_ids = remove e.new_ids mut.id;
        dirty_ids = put e.dirty_ids mut.id true;
        deleted_ids = put e.deleted_ids mut.id true;
      }
      else record e {
        cache = put e.cache mut.id (copy_or_blank mut.memory);
        dirty_ids = put e.dirty_ids mut.id true;
        deleted_ids = remove e.deleted_ids mut.id;
        new_ids = elim (e.store.get_id mut.id) [
          | err eof ↦ put e.new_ids mut.id true
          | _ ↦ e.new_ids
        ];
      }

  unfoldable pub restore_each : List Mutation → Engine → Engine
  restore_each [] e = e
  restore_each (mut ∷ muts) e = restore_each muts (restore_one mut e)

  unfoldable pub replay : List Mutation → Engine → Engine
  replay muts e = record (rebuild_pending_tag_deltas_locked (restore_each muts e)) {
    dirty = is_any muts;
  }

  module _ (digest : Option Memory → String) where
    -- One mutation against the store: whether the loop goes on, or its result.
    unfoldable pub matches_one : Mutation → Result Memory → Result Bool
    matches_one mut (ok persisted) =
        if mut.deleted then ok false else ok (digest (some persisted) == digest mut.memory)
    matches_one mut (err eof) = ok mut.deleted
    matches_one mut (err x) = err x

    unfoldable pub mutation_journal_matches_base : Engine → List Mutation → Result Bool
    mutation_journal_matches_base e [] = ok true
    mutation_journal_matches_base e (mut ∷ muts) =
        let rest = mutation_journal_matches_base e muts in
        elim (matches_one mut (e.store.get_id mut.id)) [
          | err x ↦ err x
          | ok matches ↦ if matches then rest else ok false
        ]

    -- restoreMutationJournal, given what reading the journal and the fingerprint returned.
    unfoldable pub restore_payload : Payload → String → Engine → Result Restored × Engine
    restore_payload payload base e =
        if payload.base == base
        then (ok replayed, replay payload.mutations e)
        else elim (mutation_journal_matches_base e payload.mutations) [
          | err x ↦ (err x, e)
          | ok already ↦
              if already
              then (ok cleared, e)
              else (err (failure "mutation journal base fingerprint mismatch"), e)
        ]

    unfoldable pub restore_mutation_journal :
        Result (Option Payload) → Result String → Engine → Result Restored × Engine
    restore_mutation_journal (err unavailable) base e = (ok nothing, e)
    restore_mutation_journal (err x) base e = (err x, e)
    restore_mutation_journal (ok none) base e = (ok nothing, e)
    restore_mutation_journal (ok (some payload)) (err x) e = (err x, e)
    restore_mutation_journal (ok (some payload)) (ok base) e = restore_payload payload base e
