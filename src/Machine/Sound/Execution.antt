-- ===== src/Machine/Sound/Execution.antt =====
-- Kernel/src/kernel.go, Engine.run: what a whole execution keeps, whatever it executes.
use mathlib.Core.Path.{subst}
use mathlib.Core.Bool.{false≢true}
use memory_ai.Prelude.Int.{pos}
use memory_ai.Prelude.Table.{Table}
use memory_ai.Prelude.{
  List, zero, suc, ◌<◌, ◌≢◌, sym, Bool, false, not, ◌&&◌, ◌∷◌, inl, arith, get_elem?, ℕ, String,
  ◌≡◌, refl, true, [], some, inr, ap,
}
use memory_ai.Model.{Op, Memory}
use memory_ai.Resource.{ResourceSample}
use memory_ai.Engine.View.{structure}
use memory_ai.Fabric.Resolve.{shows}
use memory_ai.Fabric.Writes.{IsUnique}
use memory_ai.Frames.{Ceilings}
use memory_ai.Frames.Bounds.{vars_fit}
use memory_ai.Machine.{State, Outcome, done, failed, panicked, beyond, out_of_fuel, Host}
use memory_ai.Machine.Run.{run, run_from, exec_primitive, labels_from, tired}
use memory_ai.Machine.Logic.{Origin, After, IsEarned}
use memory_ai.Machine.Targets.{Target}
use memory_ai.Machine.Logic.{IsSound, step, part_seq}
use memory_ai.Machine.Steps.{x-Runs, need_owner-Runs}
use memory_ai.Machine.Writes.{resolving_executable, store_at-Runs}
use memory_ai.Machine.Sound.Calls.{SoundRun, is_call, exec_primitive-Fine}
use memory_ai.Machine.Sound.Run.{scoped-Ends, run_from-Ends}

module _ (h : Host) (sample : ℕ → ResourceSample) (steps : ℕ) where
  -- The execution counter does not count against a record.
  counted :
      (before : Origin) (t : Target) (n : ℕ) (s : State)
      → IsSound h.ceilings before (t ∷ []) s
      → IsEarned before.shown t.body t.key (record t.memory { runtime_exec_count = n })
  counted before t n s w = w.earned t.body t.key t.memory w.alone.0.1

  run-Ends : (depth : ℕ) → SoundRun h (run h sample steps depth)
  unfolding run tired
  run-Ends zero before target untimed = record { run = λ s w. untimed }
  run-Ends (suc depth) before target untimed = step (x-Runs h target) (λ id.
      resolving_executable id (λ t. step (need_owner-Runs t) (λ owner.
        part_seq (store_at-Runs t _ (λ s w. counted before t (suc t.memory.runtime_exec_count) s w))
          (scoped-Ends t.memory.budget _ (
            run_from-Ends h.ceilings before sample _ t
              (λ self labels pc op there.
                exec_primitive-Fine h (run h sample steps depth) (run-Ends depth) before self labels
                  op (inl untimed))
              (labels_from 0 t.memory.program []) steps 0 0 (inl untimed))))))

-- No operation of a Program runs another Program.
unfoldable pub has_no_call : List Op → Bool
has_no_call [] = true
has_no_call (op ∷ ops) = not (is_call op.code) && has_no_call ops

no_call-at :
    (program : List Op) (pc : ℕ) (op : Op)
    → has_no_call program ≡ true
    → get_elem? program pc ≡ some op
    → is_call op.code ≡ false
unfolding has_no_call
no_call-at [] pc op none_calls there = ground arith
no_call-at (o ∷ ops) zero op none_calls there = ground arith
no_call-at (o ∷ ops) (suc pc) op none_calls there = no_call-at ops pc op (ground arith) there

-- A Program with a positive limit on its operations ends, whatever jumps it makes and however it changes
-- itself, where its operations run no other Program and the bodies show each id once: its loop needs at
-- most one step more than the limit and never runs out of that many. It ends by returning, by an error or
-- a panic, or at an operation whose case of the switch is not modelled.
pub run_from-terminates :
    (h : Host) (sample : ℕ → ResourceSample) (t : Target) (labels : Table ℕ) (n steps depth : ℕ)
    (s : State)
    → IsUnique s.fabric.bodies
    → t.memory.budget.max_ops ≡ pos (suc n)
    → has_no_call t.memory.program ≡ true
    → suc n < steps
    → run_from sample (exec_primitive h (run h sample steps depth)) t labels steps 0 0 s
      ≢ out_of_fuel
run_from-terminates h sample t labels n steps depth s once limit none_calls enough stuck =
    false≢true (
      sym (
        subst (After h.ceilings timed (λ _. [])) stuck (
          (run_from-Ends h.ceilings timed sample _ t
              (λ self ls pc op there.
                exec_primitive-Fine h (run h sample steps depth) (run-Ends h sample steps depth)
                  timed self ls op (inr (no_call-at t.memory.program pc op none_calls there)))
              labels steps 0 0 (inr (n, limit, omega arith, omega arith))).run
            s
            (record {
              fits = λ k. absurd (false≢true k);
              once = once;
              earned = λ p id m shown. inr (ap structure shown);
              alone = tt;
            }))))
  where
    timed : Origin
    timed = record { shown = shows s.fabric.bodies; framed = false; timed = true }

-- The state after an execution, against the state before it.
pub record IsSafeStep (c : Ceilings) (s t : State) : Type 0 where
  pub fits : vars_fit c t.frame.vars ≡ true
  pub once : IsUnique t.fabric.bodies
  pub earned :
      (p id : String) (m : Memory)
      → shows t.fabric.bodies p id ≡ some m
      → IsEarned (shows s.fabric.bodies) p id m

-- The part of it that concerns the bodies.
pub record IsKeptStep (s t : State) : Type 0 where
  pub once : IsUnique t.fabric.bodies
  pub earned :
      (p id : String) (m : Memory)
      → shows t.fabric.bodies p id ≡ some m
      → IsEarned (shows s.fabric.bodies) p id m

-- However an execution ends, and where it panics or comes to an operation beyond the model.
abbrev pub IsSafe : Ceilings → State → Outcome (Unit {0}) → Type 0
IsSafe c s (done _ t) = IsSafeStep c s t
IsSafe c s (failed _ t) = IsSafeStep c s t
IsSafe c s (panicked t) = IsKeptStep s t
IsSafe c s (beyond t) = IsKeptStep s t
IsSafe c s out_of_fuel = Unit

-- From a Frame under its ceilings and bodies that show each id once, every execution of every Memory is safe
-- to its end, or to the first operation whose case of the switch is not modelled. Wherever it stops
-- (it returns, fails, panics or comes to such an operation), no id is in two bodies, and every record that
-- a body shows is one that it showed before, but for the execution counter, or has no capability
-- signature: an execution neither keeps the signature of what it changes nor makes a signed record.
-- Where it returns or fails, its Frame's variables are under the ceilings. Calls that are nested,
-- isolated or tried are included; what the bounds `steps` and `depth` cut off is not.
pub run-IsSafe :
    (h : Host) (sample : ℕ → ResourceSample) (steps depth : ℕ) (target : String) (s : State)
    → vars_fit h.ceilings s.frame.vars ≡ true
    → IsUnique s.fabric.bodies
    → IsSafe h.ceilings s (run h sample steps depth target s)
run-IsSafe h sample steps depth target s fits once = told (run h sample steps depth target s) (
    (run-Ends h sample steps depth before target refl).run s (record {
      fits = λ _. fits;
      once = once;
      earned = λ p id m shown. inr (ap structure shown);
      alone = tt;
    }))
  where
    before : Origin
    before = record { shown = shows s.fabric.bodies; framed = true; timed = false }

    told : (o : Outcome (Unit {0})) → After h.ceilings before (λ _. []) o → IsSafe h.ceilings s o
    told (done _ t) w = record { fits = w.fits refl; once = w.once; earned = w.earned }
    told (failed _ t) w = record { fits = w.fits refl; once = w.once; earned = w.earned }
    told (panicked t) w = record { once = w.once; earned = w.earned }
    told (beyond t) w = record { once = w.once; earned = w.earned }
    told out_of_fuel w = tt
