-- ===== src/Machine/Logic.antt =====
-- Kernel/src/kernel.go: what every step of the machine keeps, and the rules that compose the steps.
use memory_ai.Prelude.{
  String, ◌≡◌, ◌≢◌, ◌⊎◌, refl, sym, ◌∙◌, Bool, true, false, List, [], ◌∷◌, Option, none, some, ◌==◌,
  eq_iff, arith, All, if◌then◌else◌, Option-cases, inl, inr, Error, Result, ok, err,
}
use memory_ai.Prelude.Table.{get, put, flag, get-put}
use memory_ai.Model.{Memory}
use memory_ai.Engine.{Engine, Fabric, on_body}
use memory_ai.Engine.View.{view, strip, structure}
use memory_ai.Fabric.Resolve.{shows}
use memory_ai.Fabric.Writes.{IsUnique}
use memory_ai.Frames.{Ceilings}
use memory_ai.Frames.Bounds.{vars_fit}
use memory_ai.Machine.{
  State, Outcome, done, failed, panicked, beyond, out_of_fuel, panic, Action, continue, ◌>>=◌, ◌>>◌,
  pure, fail, leave_model, lift, reads, get_var, get_list, set_list, set_output,
}
use memory_ai.Machine.Targets.{Target, set_dirty}

-- What the bodies show, by path and id.
abbrev pub View : Type 0
View = String → String → Option Memory

-- What a machine starts from: what the bodies show, whether the Frame is to be held to its ceilings, and
-- whether the model's fuel is to last.
pub record Origin : Type 0 where
  pub shown : View
  pub framed : Bool
  pub timed : Bool

-- The target is what its body shows under its key, and no other body shows that key.
abbrev pub IsAlone : Fabric → Target → Type 0
IsAlone bodies t =
    ((q : String) → q ≢ t.body → shows bodies q t.key ≡ none)
    × (shows bodies t.body t.key ≡ some t.memory)

-- The record is unsigned, or it was there before, but for its execution counter.
abbrev pub IsEarned : View → String → String → Memory → Type 0
IsEarned before p id m = (m.capability_sig ≡ "") ⊎ (structure (before p id) ≡ some (strip m))

-- The Frame that is held to its ceilings is under them, no id is in two bodies, no record has been forged since `before`,
-- and the targets at hand are the only records of their keys.
pub record IsSound (c : Ceilings) (before : Origin) (ts : List Target) (s : State) : Type 0 where
  pub fits : before.framed ≡ true → vars_fit c s.frame.vars ≡ true
  pub once : IsUnique s.fabric.bodies
  pub earned :
      (p id : String) (m : Memory)
      → shows s.fabric.bodies p id ≡ some m
      → IsEarned before.shown p id m
  pub alone : All (IsAlone s.fabric.bodies) ts

-- The part of it that holds wherever an execution stops.
pub record IsKept (before : Origin) (s : State) : Type 0 where
  pub once : IsUnique s.fabric.bodies
  pub earned :
      (p id : String) (m : Memory)
      → shows s.fabric.bodies p id ≡ some m
      → IsEarned before.shown p id m

pub view-store :
    (e : Engine) (key j : String) (m : Memory)
    → view (record e { cache = put e.cache key m }) j
      ≡ (if key == j then (if flag e.deleted_ids j then none else some m) else view e j)
unfolding view
view-store e key j m = ground (arith, get-put e.cache key j m)

pub shows-on_body :
    (p q j : String) (f : Engine → Engine) (bodies : Fabric)
    → shows (on_body p f bodies) q j ≡ (
        if p == q
        then elim (get bodies p) [ none ↦ none | some e ↦ view (f e) j ]
        else shows bodies q j)
shows-on_body p q j f bodies = elim (Option-cases (get bodies p)) [
  | inl away ↦ ground (arith, eq_iff p q)
  | inr (e, there) ↦ ground (arith, get-put bodies p q (f e), eq_iff p q)
]

pub shows-dirty :
    (p id : String) (bodies : Fabric) (q j : String)
    → shows (on_body p (set_dirty id) bodies) q j ≡ shows bodies q j
unfolding set_dirty view
shows-dirty p id bodies q j = elim (Option-cases (get bodies p)) [
  | inl away ↦ ground (arith, shows-on_body p q j (set_dirty id) bodies, eq_iff p q)
  | inr (e, there) ↦ ground (arith, shows-on_body p q j (set_dirty id) bodies, eq_iff p q)
]

module _ (c : Ceilings) (before : Origin) where
  abbrev Sound : List Target → State → Type 0
  Sound ts s = IsSound c before ts s

  pub forget : (ts : List Target) (s : State) → Sound ts s → Sound [] s
  forget ts s w = record { fits = w.fits; once = w.once; earned = w.earned; alone = tt }

  -- A state of which the bodies show the same.
  pub alike :
      (ts : List Target) (s t : State)
      → Sound ts s
      → (before.framed ≡ true → vars_fit c t.frame.vars ≡ true)
      → ((q j : String) → shows t.fabric.bodies q j ≡ shows s.fabric.bodies q j)
      → Sound ts t
  alike ts s t w fits same = record {
    fits = fits;
    once = record {
      once = λ p q id m n h k. w.once.once p q id m n (sym (same p id) ∙ h) (sym (same q id) ∙ k);
    };
    earned = λ p id m h. w.earned p id m (sym (same p id) ∙ h);
    alone = still ts w.alone;
  }
    where
      still :
          (us : List Target) → All (IsAlone s.fabric.bodies) us → All (IsAlone t.fabric.bodies) us
      still [] a = tt
      still (u ∷ us) a =
          ((λ q ne. same q u.key ∙ a.0.0 q ne, same u.body u.key ∙ a.0.1), still us a.1)

  pub kept : (ts : List Target) (s : State) → Sound ts s → IsKept before s
  kept ts s w = record { once = w.once; earned = w.earned }

  abbrev pub After : {A : Type 0} → (A → List Target) → Outcome A → Type 0
  After us (done a s) = Sound (us a) s
  After us (failed e s) = Sound [] s
  After us (panicked s) = IsKept before s
  After us (beyond s) = IsKept before s
  After us out_of_fuel = before.timed ≡ false

  -- From a sound state with some targets at hand, an Action ends in a sound state with others.
  pub record Runs {A : Type 0} (ts : List Target) (m : Action A) (us : A → List Target)
      : Type 0 where
    pub run : (s : State) → Sound ts s → After us (m s)

-- An Action that leaves the targets at hand as they are, and one after which none is needed.
abbrev pub Keeps : {A : Type 0} → Ceilings → Origin → List Target → Action A → Type 0
Keeps c before ts m = Runs c before ts m (λ _. ts)

abbrev pub Ends : {A : Type 0} → Ceilings → Origin → List Target → Action A → Type 0
Ends c before ts m = Runs c before ts m (λ _. [])

module _ {c : Ceilings} {before : Origin} where
  pub bind :
      {A B : Type 0} {ts : List Target} {m : Action A} {us : A → List Target} {k : A → Action B}
      {vs : B → List Target}
      → Runs c before ts m us
      → ((a : A) → Runs c before (us a) (k a) vs)
      → Runs c before ts (m >>= k) vs
  unfolding ◌>>=◌ continue
  bind {A} {m} {us} {k} {vs} first rest = record { run = λ s w. next (m s) (first.run s w) }
    where
      next : (o : Outcome A) → After c before us o → After c before vs (continue o k)
      next (done a t) v = (rest a).run t v
      next (failed e t) v = v
      next (panicked t) v = v
      next (beyond t) v = v
      next out_of_fuel v = v

  pub seq :
      {A B : Type 0} {ts us : List Target} {m : Action A} {k : Action B} {vs : B → List Target}
      → Runs c before ts m (λ _. us)
      → Runs c before us k vs
      → Runs c before ts (m >> k) vs
  unfolding ◌>>◌ continue
  seq {A} {us} {m} {k} {vs} first rest = record { run = λ s w. next (m s) (first.run s w) }
    where
      next : (o : Outcome A) → After c before (λ _. us) o → After c before vs (continue o (λ _. k))
      next (done a t) v = rest.run t v
      next (failed e t) v = v
      next (panicked t) v = v
      next (beyond t) v = v
      next out_of_fuel v = v

  pub pure-Runs : {A : Type 0} {ts : List Target} (a : A) → Runs c before ts (pure a) (λ _. ts)
  unfolding pure
  pure-Runs a = record { run = λ s w. w }

  pub fail-Runs :
      {A : Type 0} {ts : List Target} {us : A → List Target} (e : Error)
      → Runs c before ts (fail e) us
  unfolding fail
  fail-Runs {ts} e = record { run = λ s w. forget c before ts s w }

  pub panic-Runs :
      {A : Type 0} {ts : List Target} {us : A → List Target} → Runs c before ts panic us
  unfolding panic
  panic-Runs {ts} = record { run = λ s w. kept c before ts s w }

  pub leave_model-Runs :
      {A : Type 0} {ts : List Target} {us : A → List Target} → Runs c before ts leave_model us
  unfolding leave_model
  leave_model-Runs {ts} = record { run = λ s w. kept c before ts s w }

  pub lift-Runs :
      {A : Type 0} {ts : List Target} (r : Result A) → Runs c before ts (lift r) (λ _. ts)
  unfolding lift
  lift-Runs {ts} (ok a) = record { run = λ s w. w }
  lift-Runs {ts} (err e) = record { run = λ s w. forget c before ts s w }

  pub reads-Runs :
      {A : Type 0} {ts : List Target} (f : State → A) → Runs c before ts (reads f) (λ _. ts)
  unfolding reads
  reads-Runs f = record { run = λ s w. w }

  pub get_var-Runs : {ts : List Target} (key : String) → Runs c before ts (get_var key) (λ _. ts)
  unfolding get_var
  get_var-Runs key = record { run = λ s w. w }

  pub get_list-Runs : {ts : List Target} (key : String) → Runs c before ts (get_list key) (λ _. ts)
  unfolding get_list
  get_list-Runs key = record { run = λ s w. w }

  pub set_list-Runs :
      {ts : List Target} (key : String) (l : List String)
      → Runs c before ts (set_list key l) (λ _. ts)
  unfolding set_list
  set_list-Runs {ts} key l = record { run = λ s w. alike c before ts s _ w w.fits (λ q j. refl) }

  pub set_output-Runs :
      {ts : List Target} (l : List String) → Runs c before ts (set_output l) (λ _. ts)
  unfolding set_output
  set_output-Runs {ts} l = record { run = λ s w. alike c before ts s _ w w.fits (λ q j. refl) }

  pub if-Runs :
      {A : Type 0} {ts : List Target} {m n : Action A} {us : A → List Target} (b : Bool)
      → Runs c before ts m us
      → Runs c before ts n us
      → Runs c before ts (if b then m else n) us
  if-Runs true left right = left
  if-Runs false left right = right

  -- The targets that are not needed any more.
  pub drop-Runs :
      {A : Type 0} {ts : List Target} {m : Action A} {us : A → List Target}
      → Runs c before [] m us
      → Runs c before ts m us
  drop-Runs {ts} r = record { run = λ s w. r.run s (forget c before ts s w) }

  pub step :
      {A B : Type 0} {ts : List Target} {m : Action A} {k : A → Action B}
      → Keeps c before ts m
      → ((a : A) → Ends c before ts (k a))
      → Ends c before ts (m >>= k)
  step first rest = bind first rest

  pub step_seq :
      {A B : Type 0} {ts : List Target} {m : Action A} {k : Action B}
      → Keeps c before ts m
      → Ends c before ts k
      → Ends c before ts (m >> k)
  step_seq first rest = seq first rest

  pub part :
      {A B : Type 0} {ts : List Target} {m : Action A} {k : A → Action B}
      → Ends c before ts m
      → ((a : A) → Ends c before [] (k a))
      → Ends c before ts (m >>= k)
  part first rest = bind first rest

  pub part_seq :
      {A B : Type 0} {ts : List Target} {m : Action A} {k : Action B}
      → Ends c before ts m
      → Ends c before [] k
      → Ends c before ts (m >> k)
  part_seq first rest = seq first rest

  pub end :
      {A : Type 0} {ts : List Target} {m : Action A} → Keeps c before ts m → Ends c before ts m
  end {A} {ts} r = record { run = λ s w. last _ (r.run s w) }
    where
      last : (o : Outcome A) → After c before (λ _. ts) o → After c before (λ _. []) o
      last (done a t) v = forget c before ts t v
      last (failed e t) v = v
      last (panicked t) v = v
      last (beyond t) v = v
      last out_of_fuel v = v
