-- ===== src/Journal/Slots/Turns.antt =====
-- Kernel/src/mutation_journal_runtime.go: a write to the journal is whole or has no effect.
use mathlib.Core.Path.{subst}
use memory_ai.Prelude.{
  ℕ, ◌+◌, ◌-◌, ◌≡◌, refl, ap, ◌∙◌, Bool, true, false, ◌||◌, List, Option, none, some, eq_iff, arith,
  ltb, nat_eq, length, take, replicate, take-append, Option-cases, Bool-cases, inl, inr,
}
use memory_ai.Journal.{Payload}
use memory_ai.Journal.Slots.{
  Slot, Region, JournalRecord, Format, capacity, in_first, put_slot, better, decode_payload,
  decode_mutation_journal_slot, read_mutation_journal, journal_slot, write_mutation_journal,
}

-- The sequence number that the next write is given.
abbrev pub last_seq : Option JournalRecord → ℕ
last_seq none = 0
last_seq (some rec) = rec.seq

module _ (format : Format) where
  -- Each record stands in the slot of its sequence number.
  pub record IsPlaced (r : Region) : Type 0 where
    pub in_turn_first :
        (rec : JournalRecord)
        → decode_mutation_journal_slot format r.first ≡ some rec
        → in_first rec.seq ≡ true
    pub in_turn_second :
        (rec : JournalRecord)
        → decode_mutation_journal_slot format r.second ≡ some rec
        → in_first rec.seq ≡ false

  -- What a slot that is written whole decodes to.
  decode-journal_slot :
      (next : ℕ) (raw : List ℕ) (payload : Payload)
      → nat_eq next 0 ≡ false
      → (nat_eq (length raw) 0 || ltb capacity (length raw)) ≡ false
      → format.unmarshal raw ≡ some payload
      → nat_eq payload.version 1 ≡ true
      → decode_mutation_journal_slot format (journal_slot format next raw)
        ≡ some (record { seq = next; payload = payload; raw = raw })
  unfolding decode_mutation_journal_slot journal_slot decode_payload
  decode-journal_slot next raw payload n fits parsed v = ground (
    arith,
    take-append raw (replicate (capacity - length raw) 0),
    eq_iff (format.hash raw) (format.hash raw),
  )

  decode-positive :
      (s : Slot) (rec : JournalRecord)
      → decode_mutation_journal_slot format s ≡ some rec
      → nat_eq rec.seq 0 ≡ false
  unfolding decode_mutation_journal_slot decode_payload
  decode-positive s rec h = ground (arith, Option-cases (format.unmarshal (take s.size s.body)))

-- The turns alternate.
turn_after_first : (n : ℕ) → nat_eq n 0 ≡ false → in_first n ≡ true → in_first (n + 1) ≡ false
unfolding in_first
turn_after_first n p h = ground arith

turn_after_second : (n : ℕ) → in_first n ≡ false → in_first (n + 1) ≡ true
unfolding in_first
turn_after_second n h = ground arith

first_turn : in_first 1 ≡ true
unfolding in_first
first_turn = refl

-- The newest record of a region whose next slot decodes to d, by what the slots decode to.
abbrev newest :
    Bool → Option JournalRecord → Option JournalRecord → Option JournalRecord → Option JournalRecord
newest true d a b = better (better none d) b
newest false d a b = better (better none a) d

newest-turn :
    (a b d : Option JournalRecord)
    → ((x : JournalRecord) → a ≡ some x → (in_first x.seq ≡ true) × (nat_eq x.seq 0 ≡ false))
    → ((x : JournalRecord) → b ≡ some x → in_first x.seq ≡ false)
    → ((x : JournalRecord) → d ≡ some x → ltb (last_seq (better (better none a) b)) x.seq ≡ true)
    → newest (in_first (last_seq (better (better none a) b) + 1)) d a b
      ≡ better (better (better none a) b) d
unfolding better
newest-turn none none d p q n = ground (arith, first_turn)
newest-turn (some a) none d p q n = ground (arith, turn_after_first a.seq (p a refl).1 (p a refl).0)
newest-turn none (some b) none p q n = ground (arith, turn_after_second b.seq (q b refl))
newest-turn none (some b) (some d) p q n =
    ground (arith, turn_after_second b.seq (q b refl), n d refl)
newest-turn (some a) (some b) none p q n = ground (
  arith,
  Bool-cases (ltb a.seq b.seq),
  turn_after_first a.seq (p a refl).1 (p a refl).0,
  turn_after_second b.seq (q b refl),
)
newest-turn (some a) (some b) (some d) p q n = ground (
  arith,
  Bool-cases (ltb a.seq b.seq),
  turn_after_first a.seq (p a refl).1 (p a refl).0,
  turn_after_second b.seq (q b refl),
  n d refl,
)

better-none : (best : Option JournalRecord) → better best none ≡ best
unfolding better
better-none best = refl

better-newer :
    (best : Option JournalRecord) (x : JournalRecord)
    → ltb (last_seq best) x.seq ≡ true
    → better best (some x) ≡ some x
unfolding better
better-newer none x h = refl
better-newer (some b) x h = ground arith

module _ (format : Format) (r : Region) (placed : IsPlaced format r) where
  read-put_slot :
      (s : Slot)
      → ((x : JournalRecord)
          → decode_mutation_journal_slot format s ≡ some x
          → ltb (last_seq (read_mutation_journal format r)) x.seq ≡ true)
      → read_mutation_journal format
          (put_slot (in_first (last_seq (read_mutation_journal format r) + 1)) s r)
        ≡ better (read_mutation_journal format r) (decode_mutation_journal_slot format s)
  unfolding read_mutation_journal
  read-put_slot s newer =
      let a = decode_mutation_journal_slot format r.first in
      let b = decode_mutation_journal_slot format r.second in
      put (in_first (last_seq (better (better none a) b) + 1))
      ∙ newest-turn a b (decode_mutation_journal_slot format s)
          (λ x h. (placed.in_turn_first x h, decode-positive format r.first x h))
          placed.in_turn_second newer
    where
      put :
          (turn : Bool)
          → better
              (better none (decode_mutation_journal_slot format (put_slot turn s r).first))
              (decode_mutation_journal_slot format (put_slot turn s r).second)
            ≡ newest turn
                (decode_mutation_journal_slot format s)
                (decode_mutation_journal_slot format r.first)
                (decode_mutation_journal_slot format r.second)
      put true = refl
      put false = refl

  -- A write after the newest record of a region in which the records stand in turn is atomic: when
  -- it is whole, the journal reads as the payload that was written, under the next sequence number;
  -- and whatever a write that is cut short leaves in its slot, as long as that does not decode, the
  -- journal reads as before. The payload fits and is one that unmarshals with the right version.
  pub write_mutation_journal_atomic :
      (raw : List ℕ) (payload : Payload)
      → (nat_eq (length raw) 0 || ltb capacity (length raw)) ≡ false
      → format.unmarshal raw ≡ some payload
      → nat_eq payload.version 1 ≡ true
      → (read_mutation_journal format
            (write_mutation_journal format r (last_seq (read_mutation_journal format r)) raw).1
          ≡ some (record {
            seq = last_seq (read_mutation_journal format r) + 1;
            payload = payload;
            raw = raw;
          }))
        × ((torn : Slot)
            → decode_mutation_journal_slot format torn ≡ none
            → read_mutation_journal format
                (put_slot (in_first (last_seq (read_mutation_journal format r) + 1)) torn r)
              ≡ read_mutation_journal format r)
  unfolding write_mutation_journal
  write_mutation_journal_atomic raw payload fits parsed version =
      let last = last_seq (read_mutation_journal format r) in
      let whole =
        decode-journal_slot format (last + 1) raw payload (ground arith) fits parsed version in
      (
        ground (
          arith,
          read-put_slot (journal_slot format (last + 1) raw) (λ x k. ground arith),
          better-newer (read_mutation_journal format r)
              (record { seq = last + 1; payload = payload; raw = raw }) (ground arith),
        ),
        λ torn h.
            read-put_slot torn (λ x k. ground arith)
            ∙ ap (better (read_mutation_journal format r)) h
            ∙ better-none _,
      )

decode-seq :
    (format : Format) (s : Slot) (rec : JournalRecord)
    → decode_mutation_journal_slot format s ≡ some rec
    → rec.seq ≡ s.seq
unfolding decode_mutation_journal_slot decode_payload
decode-seq format s rec h = ground (arith, Option-cases (format.unmarshal (take s.size s.body)))

-- Writing to a journal keeps each record in the slot of its sequence number, whatever the sequence
-- number that the write goes on from.
pub write_mutation_journal-IsPlaced :
    (format : Format) (r : Region) (previous_seq : ℕ) (raw : List ℕ)
    → IsPlaced format r
    → IsPlaced format (write_mutation_journal format r previous_seq raw).1
unfolding write_mutation_journal
write_mutation_journal-IsPlaced format r previous_seq raw placed =
    elim (Bool-cases (nat_eq (length raw) 0 || ltb capacity (length raw))) [
      | inl large ↦ subst (IsPlaced format) (ground arith) placed
      | inr fits ↦
          subst (IsPlaced format) {y = (write_mutation_journal format r previous_seq raw).1}
            (ground arith)
            (placed_after (in_first (previous_seq + 1)) (journal_slot format (previous_seq + 1) raw)
              (unfold journal_slot in refl))
    ]
  where
    placed_after :
        (turn : Bool) (s : Slot) → in_first s.seq ≡ turn → IsPlaced format (put_slot turn s r)
    placed_after true s t = record {
      in_turn_first = λ rec h. ap in_first (decode-seq format s rec h) ∙ t;
      in_turn_second = placed.in_turn_second;
    }
    placed_after false s t = record {
      in_turn_first = placed.in_turn_first;
      in_turn_second = λ rec h. ap in_first (decode-seq format s rec h) ∙ t;
    }
