-- ===== src/Machine/Sound/Calls.antt =====
-- Kernel/src/kernel.go: the primitives that call a Program keep a machine sound where the call does, and
-- so do all primitives together.
use mathlib.Core.Path.{subst}
use mathlib.Core.Bool.{false≢true}
use memory_ai.Prelude.{
  ==_comm, ◌⊎◌, Bool, ◌||◌, All, ℕ, String, ◌≡◌, true, false, List, [], ◌∷◌, ◌++◌, none, some, ◌==◌,
  arith, contains, Bool-cases, inl, inr,
}
use memory_ai.Prelude.Table.{Table, get}
use memory_ai.Model.{Op, Memory, Frame}
use memory_ai.Frames.{Ceilings}
use memory_ai.Machine.{
  State, Outcome, done, failed, panicked, beyond, out_of_fuel, Action, Next, Host,
}
use memory_ai.Machine.Logic.{
  if-Runs, leave_model-Runs, fail-Runs, Origin, After, Keeps, Ends, IsSound, step, step_seq,
  reads-Runs,
}
use memory_ai.Machine.Steps.{x-Runs, set_var-Runs}
use memory_ai.Machine.Writes.{pure-Ends}
use memory_ai.Machine.Run.{
  child_outcome, in_frame, call, copy_out, call_child, call_isolated, call_try_isolated, call_cases,
  primitives, other_codes, exec_primitive,
}
use memory_ai.Machine.Texts.{variable_cases, number_cases, text_cases}
use memory_ai.Machine.States.{state_cases}
use memory_ai.Machine.Reads.{read_cases}
use memory_ai.Machine.Sound.Reads.{read_cases-AllFine}
use memory_ai.Machine.Records.{record_cases}
use memory_ai.Machine.Programs.{program_cases}
use memory_ai.Machine.Sound.Texts.{
  AllFine, Fine, frame_rules, variable_cases-AllFine, number_cases-AllFine, text_cases-AllFine,
}
use memory_ai.Machine.Sound.States.{state_cases-AllFine}
use memory_ai.Machine.Sound.Records.{record_cases-AllFine}
use memory_ai.Machine.Sound.Programs.{program_cases-AllFine}

-- The same origin, with a Frame that is not held to the ceilings.
abbrev unframed : Origin → Origin
unframed before = record before { framed = false }

module _ {c : Ceilings} {before : Origin} where
  -- A run on a child's Frame, whatever that Frame holds.
  in_frame-Keeps :
      (child : Frame) (m : Action (Unit {0}))
      → Ends c (unframed before) [] m
      → Keeps c before [] (in_frame child m)
  unfolding in_frame child_outcome
  in_frame-Keeps child m r = record {
    run = λ s w. back s w (m (record s { frame = child })) (
        r.run (record s { frame = child })
          (record {
            fits = λ k. absurd (false≢true k);
            once = w.once;
            earned = w.earned;
            alone = tt;
          }));
  }
    where
      back :
          (s : State)
          → IsSound c before [] s
          → (o : Outcome (Unit {0})) → After c (unframed before) (λ _. []) o
          → After c before (λ _. []) (child_outcome s.frame o)
      back s w (done a t) v = record { fits = w.fits; once = v.once; earned = v.earned; alone = tt }
      back s w (failed e t) v = record {
        fits = w.fits;
        once = v.once;
        earned = v.earned;
        alone = tt;
      }
      back s w (panicked t) v = record { once = v.once; earned = v.earned }
      back s w (beyond t) v = record { once = v.once; earned = v.earned }
      back s w out_of_fuel v = v

module _ (h : Host) (before : Origin) where
  copy_out-Fine :
      (ks : List String) (child : Frame) → Ends h.ceilings before [] (copy_out h ks child)
  unfolding copy_out
  copy_out-Fine [] child = pure-Ends tt
  copy_out-Fine (k ∷ ks) child = step_seq (set_var-Runs h k _) (copy_out-Fine ks child)

  -- The case of a code, where a table has one, is sound.
  abbrev FineFor : String → Table (Action Next) → Type 0
  FineFor code cases = All (λ e. (e.0 == code) ≡ true → Fine h before e.1) cases

  AllFine-FineFor :
      (code : String) (cases : Table (Action Next)) → AllFine h before cases → FineFor code cases
  AllFine-FineFor code [] all = tt
  AllFine-FineFor code (m ∷ cases) all = (λ named. all.0, AllFine-FineFor code cases all.1)

  -- Looking it up.
  chosen-Fine :
      (cases : Table (Action Next)) (other : Action Next) (code : String)
      → FineFor code cases
      → Fine h before other
      → Fine h before (elim (get cases code) [ none ↦ other | some m ↦ m ])
  unfolding get
  chosen-Fine [] other code all fine = fine
  chosen-Fine ((name, m) ∷ cases) other code all fine = elim (Bool-cases (name == code)) [
    | inl this ↦ subst (Fine h before) {x = m} (ground arith) (all.0 this)
    | inr next ↦
        subst (Fine h before) {x = elim (get cases code) [ none ↦ other | some k ↦ k ]}
          (ground arith) (chosen-Fine cases other code all.1 fine)
  ]

  both :
      (code : String) (cases more : Table (Action Next))
      → FineFor code cases
      → FineFor code more
      → FineFor code (cases ++ more)
  both code [] more left right = right
  both code (m ∷ cases) more left right = (left.0, both code cases more left.1 right)

-- An Action for each target that keeps a machine sound, wherever it starts from, if its fuel lasts.
abbrev pub SoundRun : Host → (String → Action (Unit {0})) → Type 0
SoundRun h enter =
    (before : Origin) (target : String)
    → before.timed ≡ false
    → Ends h.ceilings before [] (enter target)

module _ (h : Host) (enter : String → Action (Unit {0})) (sound : SoundRun h enter)
    (before : Origin) (untimed : before.timed ≡ false) where
  call-Fine : (op : Op) → Fine h before (call h enter op)
  unfolding call
  call-Fine op =
      step (x-Runs h op.a) (λ target. step_seq (sound before target untimed) (pure-Ends _))

  call_child-Keeps : (op : Op) → Keeps h.ceilings before [] (call_child h enter op)
  unfolding call_child
  call_child-Keeps op = step (x-Runs h _) (λ keep. step (reads-Runs _) (λ vars.
      step (x-Runs h op.a)
        (λ target. in_frame-Keeps _ (enter target) (sound (unframed before) target untimed))))

  call_isolated-Fine : (op : Op) → Fine h before (call_isolated h enter op)
  unfolding call_isolated
  call_isolated-Fine op = step (call_child-Keeps op) (λ child. search (frame_rules, copy_out-Fine))

  call_try_isolated-Fine : (op : Op) → Fine h before (call_try_isolated h enter op)
  unfolding call_try_isolated
  call_try_isolated-Fine op =
      step (call_child-Keeps op) (λ child. search (frame_rules, copy_out-Fine) depth 10)

  call_cases-AllFine : (op : Op) → AllFine h before (call_cases h enter op)
  unfolding call_cases
  call_cases-AllFine op = (call-Fine op, (call_isolated-Fine op, (call_try_isolated-Fine op, tt)))

-- An operation that runs another Program.
unfoldable pub is_call : String → Bool
is_call code = code == "call" || (code == "call_isolated" || code == "call_try_isolated")

-- A run that may stop for fuel, or an operation that calls none.
abbrev pub MayCall : Origin → String → Type 0
MayCall before code = (before.timed ≡ false) ⊎ (is_call code ≡ false)

module _ (h : Host) (enter : String → Action (Unit {0})) (sound : SoundRun h enter)
    (before : Origin) where
  calls-FineFor :
      (op : Op) → MayCall before op.code → FineFor h before op.code (call_cases h enter op)
  unfolding is_call call_cases
  calls-FineFor op (inl untimed) =
      AllFine-FineFor h before op.code (call_cases h enter op)
        (call_cases-AllFine h enter sound before untimed op)
  calls-FineFor op (inr callless) = no_calls callless
    where
      no_calls : is_call op.code ≡ false → FineFor h before op.code (call_cases h enter op)
      no_calls away = (
        λ k. absurd (false≢true (ground (arith, ==_comm "call" op.code))),
        (
          λ k. absurd (false≢true (ground (arith, ==_comm "call_isolated" op.code))),
          (λ k. absurd (false≢true (ground (arith, ==_comm "call_try_isolated" op.code))), tt),
        ),
      )

  pub exec_primitive-Fine :
      (self : Memory) (labels : Table ℕ) (op : Op)
      → MayCall before op.code
      → Fine h before (exec_primitive h enter self labels op)
  unfolding exec_primitive primitives
  exec_primitive-Fine self labels op may =
      let all = AllFine-FineFor h before op.code in
      let plus = both h before op.code in
      chosen-Fine h before (primitives h enter self labels op) _ op.code
        (plus _ _
          (all (variable_cases h self labels op) (variable_cases-AllFine h before self labels op))
          (plus _ _ (all (read_cases h self op) (read_cases-AllFine h before self op)) (
            plus _ _ (all (number_cases h labels op) (number_cases-AllFine h before labels op)) (
              plus _ _ (calls-FineFor op may) (
                plus _ _ (all (text_cases h self op) (text_cases-AllFine h before self op)) (
                  plus _ _ (all (state_cases h op) (state_cases-AllFine h before op)) (
                    plus _ _ (all (record_cases h op) (record_cases-AllFine h before op))
                      (all (program_cases h op) (program_cases-AllFine h before op)))))))))
        (if-Runs (contains other_codes op.code) leave_model-Runs (fail-Runs _))
