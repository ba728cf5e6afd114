-- ===== src/Journal/Slots.antt =====
-- Kernel/src/mutation_journal_runtime.go: the two slots of a journal, of which a write replaces the
-- older one.
pub mod Turns
use memory_ai.Prelude.{
  ℕ, ◌+◌, ◌-◌, ◌%◌, String, Bool, true, false, ◌||◌, not, List, ◌++◌, Option, none, some, ◌==◌, ltb,
  nat_eq, if◌then◌else◌, length, take, replicate, Result, ok, err, failure,
}
use memory_ai.Journal.{Payload}

-- Bytes are numbers. `body` is what follows the header.
pub record Slot : Type 0 where
  pub magic : String
  pub seq : ℕ
  pub size : ℕ
  pub sum : String
  pub body : List ℕ

pub record Region : Type 0 where
  pub first : Slot
  pub second : Slot

pub record JournalRecord : Type 0 where
  pub seq : ℕ
  pub payload : Payload
  pub raw : List ℕ

-- crypto/sha256 in hexadecimal, and json.Unmarshal into a payload.
pub record Format : Type 0 where
  pub hash : List ℕ → String
  pub unmarshal : List ℕ → Option Payload

abbrev pub capacity : ℕ
capacity = 32760 - 64

-- The slot in which a sequence number is written.
unfoldable pub in_first : ℕ → Bool
in_first next = nat_eq ((next - 1) % 2) 0

abbrev pub put_slot : Bool → Slot → Region → Region
put_slot true s r = record r { first = s }
put_slot false s r = record r { second = s }

-- rec, ok := …; if ok && (best == nil || rec.seq > best.seq) { best = rec }
unfoldable pub better : Option JournalRecord → Option JournalRecord → Option JournalRecord
better best none = best
better none (some rec) = some rec
better (some best) (some rec) = if ltb best.seq rec.seq then some rec else some best

module _ (format : Format) where
  open format use {hash, unmarshal}

  unfoldable pub decode_payload : Slot → List ℕ → Option JournalRecord
  decode_payload s raw = elim (unmarshal raw) [
    | none ↦ none
    | some payload ↦
        if nat_eq payload.version 1
        then some (record { seq = s.seq; payload = payload; raw = raw })
        else none
  ]

  unfoldable pub decode_mutation_journal_slot : Slot → Option JournalRecord
  decode_mutation_journal_slot s =
      if not (s.magic == "MAJRN001")
      then none
      else if nat_eq s.seq 0 || (nat_eq s.size 0 || ltb capacity s.size)
      then none
      else if not (s.sum == hash (take s.size s.body))
      then none
      else decode_payload s (take s.size s.body)

  unfoldable pub read_mutation_journal : Region → Option JournalRecord
  read_mutation_journal r =
      better (better none (decode_mutation_journal_slot r.first))
        (decode_mutation_journal_slot r.second)

  -- The slot that writeMutationJournal makes.
  unfoldable pub journal_slot : ℕ → List ℕ → Slot
  journal_slot next raw = record {
    magic = "MAJRN001";
    seq = next;
    size = length raw;
    sum = hash raw;
    body = raw ++ replicate (capacity - length raw) 0;
  }

  unfoldable pub write_mutation_journal : Region → ℕ → List ℕ → Result (Unit {0}) × Region
  write_mutation_journal r previous_seq raw =
      if nat_eq (length raw) 0 || ltb capacity (length raw)
      then (err (failure "mutation journal payload exceeds slot capacity"), r)
      else (let next = previous_seq + 1 in
          (ok tt, put_slot (in_first next) (journal_slot next raw) r))
