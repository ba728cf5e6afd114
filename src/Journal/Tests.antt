-- ===== src/Journal/Tests.antt =====
-- One changed record in a journal, and a journal with two empty slots.
use memory_ai.Prelude.{
  ◌≡◌, refl, true, false, [], ◌∷◌, none, some, eq_iff, arith, ok, contains, ◌+◌,
}
use memory_ai.Prelude.Table.{get}
use memory_ai.Prelude.Text.{sort_strings, insert_sorted}
use memory_ai.Model.{Memory}
use memory_ai.Samples.{note, body}
use memory_ai.Engine.{Engine}
use memory_ai.Engine.View.{view, IsCoherent}
use memory_ai.Speculative.{Codec, memory_digest_no_runtime_exec}
use memory_ai.Speculative.Applied.{CodecLaws}
use memory_ai.Journal.{
  Payload, snapshot_mutation_journal, snapshot_each, pending_ids, dedup, flagged, replay,
}
use memory_ai.Journal.Replay.{kept, replay-shows}
use memory_ai.Journal.Slots.{
  Slot, Region, Format, in_first, put_slot, decode_mutation_journal_slot, read_mutation_journal,
  write_mutation_journal,
}
use memory_ai.Journal.Slots.Turns.{
  IsPlaced, last_seq, write_mutation_journal_atomic, write_mutation_journal-IsPlaced,
}

abbrev plain : Codec
plain = record { copy = λ m. m; digest = λ m. m.content }

plain_laws : CodecLaws plain
unfolding memory_digest_no_runtime_exec
plain_laws = record { copy_exec = λ m. refl; copy_digest = λ m n. refl; exec_digest = λ m n. refl }

abbrev changed : Memory
changed = record note { content = "changed" }

abbrev dirty_body : Engine
dirty_body = record body {
  cache = ("note", changed) ∷ [];
  dirty_ids = ("note", true) ∷ [];
  dirty = true;
}

dirty_body-IsCoherent : IsCoherent dirty_body
unfolding get
dirty_body-IsCoherent = record { clean = λ id m h d n. ground (arith, eq_iff "note" id) }

abbrev payload : Payload
payload = record {
  version = 1;
  base = "base";
  mutations = record { id = "note"; deleted = false; memory = some changed } ∷ [];
}

payload_written : snapshot_mutation_journal plain.copy dirty_body "base" ≡ ok payload
unfolding snapshot_mutation_journal snapshot_each pending_ids dedup flagged get contains
    sort_strings insert_sorted
payload_written = refl

body_shows_store : view body "note" ≡ some note
unfolding view get
body_shows_store = refl

replay-shows_example :
    kept plain (view (replay plain.copy payload.mutations body) "note")
    ≡ kept plain (view dirty_body "note")
replay-shows_example =
    replay-shows plain_laws dirty_body body "base" payload "note" dirty_body-IsCoherent
      body_shows_store payload_written

abbrev zeros : Slot
zeros = record { magic = ""; seq = 0; size = 0; sum = ""; body = [] }

abbrev empty_region : Region
empty_region = record { first = zeros; second = zeros }

abbrev format : Format
format = record { hash = λ raw. "sum"; unmarshal = λ raw. some payload }

empty_region-IsPlaced : IsPlaced format empty_region
unfolding decode_mutation_journal_slot
empty_region-IsPlaced = record {
  in_turn_first = λ rec h. ground arith;
  in_turn_second = λ rec h. ground arith;
}

write_mutation_journal_atomic_example :
    (read_mutation_journal format
        (write_mutation_journal format empty_region
          (last_seq (read_mutation_journal format empty_region))
          (7 ∷ [])).1
      ≡ some (record {
        seq = last_seq (read_mutation_journal format empty_region) + 1;
        payload = payload;
        raw = 7 ∷ [];
      }))
    × ((torn : Slot)
        → decode_mutation_journal_slot format torn ≡ none
        → read_mutation_journal format (
            put_slot
              (in_first (last_seq (read_mutation_journal format empty_region) + 1))
              torn
              empty_region)
          ≡ read_mutation_journal format empty_region)
write_mutation_journal_atomic_example =
    write_mutation_journal_atomic format empty_region empty_region-IsPlaced (7 ∷ []) payload refl
      refl refl

write_mutation_journal-IsPlaced_example :
    IsPlaced format (write_mutation_journal format empty_region 0 (7 ∷ [])).1
write_mutation_journal-IsPlaced_example =
    write_mutation_journal-IsPlaced format empty_region 0 (7 ∷ []) empty_region-IsPlaced
