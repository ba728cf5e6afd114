-- ===== src/Events.antt =====
-- Kernel/src/event_runtime.go: physical events, the Memories that they select, and the handlers that run on
-- one Frame. The dispatch is the serial one of a canonical execution; the parallel one enters by the size
-- of its batches and the merge of its branches.
-- What is only counted (f.Events, eventStats) is left out. The index of triggers is a parameter: for a
-- feature, the ids that have it. fmt.Sscan of a depth is another.
pub mod Metadata
pub mod Batches
pub mod Merge
mod Tests
use Prim.Native.String as Str
use Prim.Native.String.{len, slice}
use memory_ai.Prelude.{
  ℕ, zero, suc, ◌+◌, ◌-◌, ◌*◌, ◌%◌, String, Bool, true, false, ◌&&◌, ◌||◌, not, List, [], ◌∷◌, ◌++◌,
  Option, none, some, Error, Result, ok, err, failure, ◌==◌, leb, ltb, if◌then◌else◌, length,
  contains, drop,
}
use memory_ai.Prelude.Int.{ℤ, pos, negsuc, exceeds}
use memory_ai.Prelude.Table.{Table, get, put, remove, has}
use memory_ai.Prelude.Text.{trim_space, sort_strings}
use memory_ai.Model.{Memory, Frame}
use memory_ai.Frames.{
  Ceilings, is_internal, add_vars, ensure_frame_vars_within_physical_limit,
  ensure_physical_event_vars, frame_vars_merge_candidate,
}
use memory_ai.Security.{is_empty}
use memory_ai.Machine.{State, Action, ◌>>=◌, ◌>>◌, done, pure, fail, lift, reads, text_at, list_at}
use memory_ai.Machine.Targets.{look_up}
use memory_ai.Machine.Reads.{attempt, add_unseen, print_int}

pub record PhysicalEvent : Type 0 where
  pub id : String
  pub name : String
  pub subject : String
  pub vars : Table String
  pub depth : ℤ

-- An int of 64 bits, from its bits.
unfoldable pub wrap_int : ℕ → ℤ
wrap_int n =
    let bits = n % 18446744073709551616 in
    if ltb bits 9223372036854775808 then pos bits else negsuc (18446744073709551615 - bits)

-- i < n, for a count n
unfoldable pub is_under : ℤ → ℕ → Bool
is_under (pos m) n = ltb m n
is_under (negsuc _) n = true

-- if batch < workers { batch = workers }, and the two ceilings
unfoldable pub batch_of : ℕ → ℕ → ℤ → ℤ
batch_of total workers product =
    let batch = if is_under product workers then pos workers else product in
    let capped = if is_under batch 257 then batch else pos 256 in
    if is_under capped (suc total) then capped else pos total

-- if workers < 1 { workers = 1 }
unfoldable pub workers_of : ℤ → ℕ
workers_of (negsuc _) = 1
workers_of (pos n) = if ltb n 1 then 1 else n

unfoldable pub event_dispatch_batch_size : ℤ → ℤ → ℤ
event_dispatch_batch_size (negsuc _) workers = pos 1
event_dispatch_batch_size (pos total) workers =
    if leb total 0
    then pos 1
    else batch_of total (workers_of workers) (wrap_int (workers_of workers * 4))

-- strings.HasPrefix and strings.TrimPrefix
unfoldable pub has_prefix : String → String → Bool
has_prefix s p = slice s 0 (len p) == p

unfoldable pub after_prefix : String → String → String
after_prefix s p = slice s (len p) (len s)

-- One trigger against an event.
unfoldable pub trigger_holds : PhysicalEvent → List String → String → Bool
trigger_holds ev tags trigger =
    if has_prefix trigger "event:"
    then after_prefix trigger "event:" == ev.name
    else if has_prefix trigger "subject_tag:"
    then contains tags (after_prefix trigger "subject_tag:")
    else if has_prefix trigger "subject_id:"
    then after_prefix trigger "subject_id:" == ev.subject
    else false

-- for _, raw := range m.Trigger
unfoldable pub triggers_hold : PhysicalEvent → List String → List String → Bool
triggers_hold ev tags [] = true
triggers_hold ev tags (raw ∷ rest) = elim (trigger_holds ev tags (trim_space raw)) [
  | true ↦ triggers_hold ev tags rest
  | false ↦ false
]

unfoldable pub memory_matches_physical_event : Memory → PhysicalEvent → List String → Bool
memory_matches_physical_event m ev tags =
    if is_empty m.program || is_empty m.trigger then false else triggers_hold ev tags m.trigger

-- The variables that an event adds to a Frame's, but for the internal ones.
unfoldable pub add_event_vars : Table String → Table String → Table String
add_event_vars [] candidate = candidate
add_event_vars ((key, value) ∷ rest) candidate =
    let more = add_event_vars rest candidate in
    if is_internal key then more else put (put more key value) (Str.◌++◌ "__event." key) value

unfoldable pub event_candidate : Table String → PhysicalEvent → Table String
event_candidate vars ev =
    add_event_vars ev.vars
      (put (put (put vars "__event" ev.name) "__event_id" ev.id) "__subject" ev.subject)

-- The variables of a Frame that an event may take with it.
unfoldable pub select_vars : Bool → Table String → Table String
select_vars skip_internal [] = []
select_vars skip_internal ((key, value) ∷ rest) =
    let more = select_vars skip_internal rest in
    if skip_internal && is_internal key then more else (key, value) ∷ more

-- A frame's variable that belongs to the event that runs.
unfoldable pub is_meta : String → Bool
is_meta k = k == "__event" || (k == "__event_id" || (k == "__subject" || has_prefix k "__event."))

unfoldable pub meta_vars : Table String → Table String
meta_vars [] = []
meta_vars ((k, v) ∷ rest) = let more = meta_vars rest in if is_meta k then (k, v) ∷ more else more

unfoldable pub without_meta : Table String → Table String
without_meta [] = []
without_meta ((k, v) ∷ rest) =
    let more = without_meta rest in if is_meta k then more else (k, v) ∷ more

-- The parent's metadata, and the payload that it names.
unfoldable pub put_meta : Table String → Table String → Table String
put_meta [] base = base
put_meta ((k, v) ∷ rest) base =
    let more = put_meta rest base in
    if has_prefix k "__event."
    then put (put more k v) (after_prefix k "__event.") v
    else put more k v

unfoldable pub suc_int : ℤ → ℤ
suc_int (pos n) = pos (suc n)
suc_int (negsuc zero) = pos 0
suc_int (negsuc (suc n)) = negsuc n

-- errors.Join, of which the first error is kept.
unfoldable pub join_errors : Result (Unit {0}) → Result (Unit {0}) → Result (Unit {0})
join_errors (ok _) r = r
join_errors (err e) r = err e

unfoldable pub set_vars : Table String → Action (Unit {0})
set_vars vars s = done tt (record s { frame = record s.frame { vars = vars } })

-- The updates of one branch against the Frame that all branches started from.
unfoldable pub branch_updates : Table String → Table String → Table String → Table String
branch_updates base [] updates = updates
branch_updates base ((k, v) ∷ rest) updates = branch_updates base rest (elim (get base k) [
  | none ↦ put updates k v
  | some old ↦ if old == v then updates else put updates k v
])

unfoldable pub all_updates : Table String → List Frame → Table String → Table String
all_updates base [] updates = updates
all_updates base (branch ∷ rest) updates =
    all_updates base rest (branch_updates base branch.vars updates)

unfoldable pub equal_frame_list : List String → List String → Bool
equal_frame_list [] [] = true
equal_frame_list [] (_ ∷ _) = false
equal_frame_list (_ ∷ _) [] = false
equal_frame_list (a ∷ xs) (b ∷ ys) = let rest = equal_frame_list xs ys in a == b && rest

unfoldable pub merge_lists :
    Table (List String) → Table (List String) → Table (List String) → Table (List String)
merge_lists base [] lists = lists
merge_lists base ((k, values) ∷ rest) lists =
    merge_lists base rest
      (if equal_frame_list values (list_at base k) then lists else put lists k values)

unfoldable pub merge_independent_event_frame_non_vars : Frame → Frame → Frame → Frame
merge_independent_event_frame_non_vars dst base branch = record dst {
  lists = merge_lists base.lists branch.lists dst.lists;
  output =
      if ltb (length base.output) (length branch.output)
      then dst.output ++ drop (length base.output) branch.output
      else dst.output;
}

module _ (c : Ceilings) where
  unfoldable pub copy_physical_event_vars_bounded : Table String → Bool → Result (Table String)
  copy_physical_event_vars_bounded source skip_internal =
      let out = select_vars skip_internal source in
      if ltb c.event_var_max_items (length out)
      then err (failure "exceeds physical event-variable cardinality")
      else elim (add_vars c.event_var_max_bytes 0 out) [
        | none ↦ err (failure "exceeds physical event-variable byte ceiling")
        | some _ ↦ ok out
      ]

  unfoldable pub frame_vars_with_event_candidate :
      Table String → PhysicalEvent → Result (Table String)
  frame_vars_with_event_candidate vars ev =
      elim (ensure_frame_vars_within_physical_limit c (event_candidate vars ev)) [
        | err e ↦ err e
        | ok _ ↦ ok (event_candidate vars ev)
      ]

  unfoldable pub independent_event_frame_vars_candidate :
      Frame → Frame → List Frame → Result (Table String)
  independent_event_frame_vars_candidate dst base branches =
      frame_vars_merge_candidate c dst.vars (all_updates base.vars branches [])

  unfoldable pub apply_physical_event_frame : PhysicalEvent → Action (Unit {0})
  apply_physical_event_frame ev = do
    vars ← reads (λ s. s.frame.vars)
    candidate ← lift (frame_vars_with_event_candidate vars ev)
    set_vars candidate

module _ (c : Ceilings) (feature_ids : String → State → Result (List String))
    (scan_int : String → ℤ) (run : String → Action (Unit {0})) where
  unfoldable pub event_subject_tags : String → Action (List String)
  event_subject_tags subject =
      if subject == ""
      then pure []
      else (do r ← look_up subject; pure (elim r [ err _ ↦ [] | ok (p, m) ↦ m.tags ]))

  -- "event:" + ev.Name and the features of the subject.
  unfoldable pub event_keys : PhysicalEvent → List String → List String
  event_keys ev tags = sort_strings (
      Str.◌++◌ "event:" ev.name
      ∷ ((if ev.subject == "" then [] else Str.◌++◌ "subject_id:" ev.subject ∷ [])
          ++ tag_keys tags))
    where
      tag_keys : List String → List String
      tag_keys [] = []
      tag_keys (t ∷ ts) = Str.◌++◌ "subject_tag:" t ∷ tag_keys ts

  unfoldable pub collect_ids : List String → List String → Action (List String)
  collect_ids [] out = pure (sort_strings out)
  collect_ids (key ∷ rest) out = do
    found ← reads (feature_ids (Str.◌++◌ "trigger:" key))
    ids ← lift found
    collect_ids rest (add_unseen out ids)

  -- The candidates that match, in order.
  unfoldable pub matched_ids : PhysicalEvent → List String → List String → Action (List String)
  matched_ids ev tags [] = pure []
  matched_ids ev tags (id ∷ rest) = do
    r ← look_up id
    more ← matched_ids ev tags rest
    pure (elim r [
      | err _ ↦ more
      | ok (p, m) ↦ if memory_matches_physical_event m ev tags then id ∷ more else more
    ])

  -- Each handler sees the event that selected it; one that fails does not stop the others.
  unfoldable pub run_handlers : PhysicalEvent → List String → Result (Unit {0}) → Action (Unit {0})
  run_handlers ev [] errors = lift errors
  run_handlers ev (id ∷ rest) errors = do
    apply_physical_event_frame c ev
    found ← look_up id
    r ← attempt (elim found [ err e ↦ fail e | ok _ ↦ run id ])
    run_handlers ev rest (join_errors errors r)

  unfoldable pub dispatch_physical_event : PhysicalEvent → Action (Unit {0})
  dispatch_physical_event ev =
      if trim_space ev.name == ""
      then fail (failure "physical event name required")
      else if too_deep ev.depth
      then fail (failure "physical event depth exceeded")
      else (do
        tags ← event_subject_tags ev.subject
        ids ← collect_ids (event_keys ev tags) []
        apply_physical_event_frame c ev
        matched ← matched_ids ev tags ids
        run_handlers ev matched (ok tt))
    where
      too_deep : ℤ → Bool
      too_deep (pos n) = ltb 64 n
      too_deep (negsuc _) = false

  -- The event's depth in the Frame that emits it.
  unfoldable pub at_depth : Table String → PhysicalEvent → PhysicalEvent
  at_depth vars ev =
      if text_at vars "__event_depth" == ""
      then ev
      else record ev { depth = suc_int (scan_int (text_at vars "__event_depth")) }

  unfoldable pub restore_depth : Table String → Table String → Table String
  restore_depth before now =
      if text_at before "__event_depth" == ""
      then remove now "__event_depth"
      else put now "__event_depth" (text_at before "__event_depth")

  unfoldable pub has_parent : Table String → Bool
  has_parent vars = not (text_at vars "__event" == "") || not (text_at vars "__event_id" == "")

  -- What follows the dispatch: the parent's metadata, or this event's where there is no parent.
  unfoldable pub restore_parent : Table String → PhysicalEvent → Action (Unit {0})
  restore_parent before ev = do
    now ← reads (λ s. restore_depth before s.frame.vars)
    set_vars now
    if has_parent before
        then set_vars (put_meta (meta_vars before) (without_meta now))
        else apply_physical_event_frame c ev

  unfoldable pub enqueue_event : PhysicalEvent → Action (Unit {0})
  enqueue_event ev = do
    before ← reads (λ s. s.frame.vars)
    _ ← lift (frame_vars_with_event_candidate c before ev)
    lift (ensure_physical_event_vars c ev.vars)
    set_vars (put before "__event_depth" (print_int (at_depth before ev).depth))
    r ← attempt (dispatch_physical_event (at_depth before ev))
    restore_parent before (at_depth before ev)
    lift r
