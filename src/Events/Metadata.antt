-- ===== src/Events/Metadata.antt =====
-- Kernel/src/event_runtime.go, enqueueEvent: a nested event does not replace its caller's metadata.
use mathlib.Core.Path.{subst}
use memory_ai.Prelude.{
  String, ◌≡◌, refl, sym, Bool, true, ◌&&◌, not, List, [], ◌∷◌, none, some, Result, ok, err, ◌==◌,
  eq_iff, arith, Result-cases, inl, inr,
}
use memory_ai.Prelude.Int.{ℤ}
use memory_ai.Prelude.Table.{Table, get, put, get-put}
use memory_ai.Frames.{Ceilings, ensure_physical_event_vars}
use memory_ai.Machine.{
  State, Outcome, done, failed, panicked, beyond, out_of_fuel, Action, continue, ◌>>=◌, ◌>>◌, lift,
  reads,
}
use memory_ai.Machine.Reads.{print_int, attempt, attempt_outcome}
use memory_ai.Events.{
  PhysicalEvent, has_prefix, after_prefix, is_meta, meta_vars, without_meta, put_meta, set_vars,
  at_depth, restore_depth, has_parent, restore_parent, frame_vars_with_event_candidate,
  dispatch_physical_event, enqueue_event,
}

-- No variable of the table carries a payload for the key.
unfoldable pub unaliased : String → Table String → Bool
unaliased key [] = true
unaliased key ((k, v) ∷ rest) =
    let more = unaliased key rest in
    not (has_prefix k "__event." && after_prefix k "__event." == key) && more

get-put_meta :
    (key : String) (entries base : Table String)
    → unaliased key entries ≡ true
    → get (put_meta entries base) key
      ≡ (elim (get entries key) [ none ↦ get base key | some v ↦ some v ])
unfolding put_meta unaliased get
get-put_meta key [] base h = refl
get-put_meta key ((k, v) ∷ rest) base h = ground (
  arith,
  get-put_meta key rest base (ground arith),
  get-put (put_meta rest base) k key v,
  get-put (put (put_meta rest base) k v) (after_prefix k "__event.") key v,
)

get-meta_vars :
    (key : String) (vars : Table String)
    → is_meta key ≡ true
    → (get (meta_vars vars) key ≡ get vars key) × (get (without_meta vars) key ≡ none)
unfolding meta_vars without_meta get
get-meta_vars key [] meta = (refl, refl)
get-meta_vars key ((k, v) ∷ rest) meta =
    let (kept, gone) = get-meta_vars key rest meta in
    (ground (arith, kept, eq_iff k key), ground (arith, gone, eq_iff k key))

unaliased-meta_vars :
    (key : String) (vars : Table String)
    → unaliased key vars ≡ true
    → unaliased key (meta_vars vars) ≡ true
unfolding unaliased meta_vars
unaliased-meta_vars key [] h = refl
unaliased-meta_vars key ((k, v) ∷ rest) h =
    ground (arith, unaliased-meta_vars key rest (ground arith))

-- The metadata after a restoration.
restored :
    (key : String) (before now : Table String)
    → is_meta key ≡ true
    → unaliased key before ≡ true
    → get (put_meta (meta_vars before) (without_meta now)) key ≡ get before key
restored key before now meta h = ground (
  arith,
  get-put_meta key (meta_vars before) (without_meta now) (unaliased-meta_vars key before h),
  get-meta_vars key before meta,
  get-meta_vars key now meta,
)

-- Wherever an Action ends, a variable is what it was.
abbrev pub Leaves : String → State → Outcome (Unit {0}) → Type 0
Leaves key s (done _ u) = get u.frame.vars key ≡ get s.frame.vars key
Leaves key s (failed _ u) = get u.frame.vars key ≡ get s.frame.vars key
Leaves key s (panicked _) = Unit
Leaves key s (beyond _) = Unit
Leaves key s out_of_fuel = Unit

module _ (c : Ceilings) (feature_ids : String → State → Result (List String))
    (scan_int : String → ℤ) (run : String → Action (Unit {0})) where
  restore_parent-done :
      (before : Table String) (ev : PhysicalEvent) (t : State)
      → has_parent c feature_ids scan_int run before ≡ true
      → restore_parent c feature_ids scan_int run before ev t
        ≡ done tt (record t {
          frame = record t.frame {
            vars =
                put_meta
                  (meta_vars before)
                  (without_meta (restore_depth c feature_ids scan_int run before t.frame.vars));
          };
        })
  unfolding restore_parent ◌>>=◌ ◌>>◌ continue reads set_vars
  restore_parent-done before ev t within = ground arith

  -- After the dispatch.
  finished :
      (key : String) (s : State) (ev : PhysicalEvent) (o : Outcome (Unit {0}))
      → has_parent c feature_ids scan_int run s.frame.vars ≡ true
      → is_meta key ≡ true
      → unaliased key s.frame.vars ≡ true
      → Leaves key s (
          continue
            (attempt_outcome o)
            (λ r. restore_parent c feature_ids scan_int run s.frame.vars ev >> lift r))
  unfolding ◌>>◌ continue attempt_outcome lift
  finished key s ev (done a t) within meta h =
      subst (λ o. Leaves key s (continue o (λ _. lift (ok tt))))
        (sym (restore_parent-done s.frame.vars ev t within)) (restored key s.frame.vars _ meta h)
  finished key s ev (failed e t) within meta h =
      subst (λ o. Leaves key s (continue o (λ _. lift {A = Unit {0}} (err e))))
        (sym (restore_parent-done s.frame.vars ev t within)) (restored key s.frame.vars _ meta h)
  finished key s ev (panicked t) within meta h = tt
  finished key s ev (beyond t) within meta h = tt
  finished key s ev out_of_fuel within meta h = tt

  -- A nested event leaves its caller's metadata as it was, whatever its handlers do: where the Frame
  -- that emits an event is within another event, every variable of that event's metadata has the
  -- value that it had when the emission ends, with or without an error, unless the Frame held a
  -- variable that names it as a payload.
  pub enqueue_event-restores :
      (ev : PhysicalEvent) (key : String) (s : State)
      → has_parent c feature_ids scan_int run s.frame.vars ≡ true
      → is_meta key ≡ true
      → unaliased key s.frame.vars ≡ true
      → Leaves key s (enqueue_event c feature_ids scan_int run ev s)
  unfolding enqueue_event ◌>>=◌ ◌>>◌ continue reads lift set_vars attempt
  enqueue_event-restores ev key s within meta h =
      elim (Result-cases (frame_vars_with_event_candidate c s.frame.vars ev)) [
        | inr (e, refused) ↦
            subst (Leaves key s) {x = failed e s}
              {y = enqueue_event c feature_ids scan_int run ev s} (ground arith) refl
        | inl (_, fits) ↦ elim (Result-cases (ensure_physical_event_vars c ev.vars)) [
          | inr (e, refused) ↦
              subst (Leaves key s) {x = failed e s}
                {y = enqueue_event c feature_ids scan_int run ev s} (ground arith) refl
          | inl (_, carried) ↦
              let ev' = at_depth c feature_ids scan_int run s.frame.vars ev in
              let entered = record s {
                frame = record s.frame {
                  vars = put s.frame.vars "__event_depth" (print_int ev'.depth);
                };
              } in
              let o = dispatch_physical_event c feature_ids scan_int run ev' entered in
              subst (Leaves key s)
                {x = continue (attempt_outcome o)
                  (λ r. restore_parent c feature_ids scan_int run s.frame.vars ev' >> lift r)}
                {y = enqueue_event c feature_ids scan_int run ev s} (ground arith)
                (finished key s ev' o within meta h)
        ]
      ]
