-- ===== src/Machine/Sound/Run.antt =====
-- Kernel/src/kernel.go, Engine.run: an execution keeps a machine sound.
use mathlib.Core.Path.{subst}
use memory_ai.Prelude.Int.{pos}
use memory_ai.Prelude.{
  ltb, Option, Result-cases, ◌<◌, ◌≤◌, Error, ◌⊎◌, Option, ℕ, zero, suc, ◌+◌, ◌*◌, String, ◌≡◌,
  refl, sym, true, false, List, [], none, some, arith, get_elem?, Option-cases, Bool-cases, inl,
  inr,
}
use memory_ai.Prelude.Table.{Table}
use memory_ai.Model.{Op, Memory, Frame, ResourceBudget}
use memory_ai.Security.{check_primitive_capability}
use memory_ai.Resource.{
  over_budget, ResourceSample, check_resource_budget_before_primitive,
  reserve_primitive_resource_budget, enter_frame_resource_scope,
}
use memory_ai.Frames.{Ceilings}
use memory_ai.Frames.Bounds.{vars_fit}
use memory_ai.Machine.{
  continue, lift, ◌>>◌, State, Outcome, done, failed, panicked, beyond, out_of_fuel, Action, Next,
  ◌>>=◌, pure,
}
use memory_ai.Machine.Targets.{Target}
use memory_ai.Machine.Logic.{Origin, After, Keeps, Ends, alike, step, step_seq, lift-Runs}
use memory_ai.Machine.Writes.{pure-Ends}
use memory_ai.Machine.Run.{
  current, current_memory, reserve, leave, scoped, tired, run_op, next_pc, run_from,
}

reserved-vars :
    (b : ResourceBudget) (start now : ResourceSample) (ops : ℕ) (f : Frame) (code : String)
    → (check_resource_budget_before_primitive b start now ops f code).1.vars ≡ f.vars
unfolding check_resource_budget_before_primitive reserve_primitive_resource_budget
reserved-vars b start now ops f code = elim (Option-cases f.resource_scope) [
  | inl out ↦ ground arith
  | inr (scope, within) ↦ ground arith
]

module _ {c : Ceilings} {before : Origin} where
  current-Runs : {ts : List Target} (t : Target) → Keeps c before ts (current t)
  unfolding current
  current-Runs t = record { run = λ s w. w }

  reserve-Runs :
      {ts : List Target} (b : ResourceBudget) (start now : ResourceSample) (ops : ℕ) (code : String)
      → Keeps c before ts (reserve b start now ops code)
  unfolding reserve
  reserve-Runs {ts} b start now ops code = record {
    run = λ s w.
        let (r, f) = check_resource_budget_before_primitive b start now ops s.frame code in
        (lift-Runs r).run (record s { frame = f })
          (alike c before ts s (record s { frame = f }) w
            (λ k.
              subst (λ v. vars_fit c v ≡ true) (sym (reserved-vars b start now ops s.frame code))
                (w.fits k))
            (λ q j. refl));
  }

module _ (c : Ceilings) (before : Origin) where
  -- A change of the Frame that leaves the variables.
  leave-After :
      {A : Type 0} (restore : Frame → Frame) (o : Outcome A)
      → ((f : Frame) → (restore f).vars ≡ f.vars)
      → After c before (λ _. []) o
      → After c before (λ _. []) (leave restore o)
  unfolding leave
  leave-After restore (done a s) same w =
      alike c before [] s _ w
        (λ k. subst (λ v. vars_fit c v ≡ true) (sym (same s.frame)) (w.fits k)) (λ q j. refl)
  leave-After restore (failed e s) same w =
      alike c before [] s _ w
        (λ k. subst (λ v. vars_fit c v ≡ true) (sym (same s.frame)) (w.fits k)) (λ q j. refl)
  leave-After restore (panicked s) same w = record { once = w.once; earned = w.earned }
  leave-After restore (beyond s) same w = record { once = w.once; earned = w.earned }
  leave-After restore out_of_fuel same w = w

module _ {c : Ceilings} {before : Origin} where
  pub scoped-Ends :
      {A : Type 0} (b : ResourceBudget) (m : Action A)
      → Ends c before [] m
      → Ends c before [] (scoped b m)
  unfolding scoped enter_frame_resource_scope
  scoped-Ends b m r = record {
    run = λ s w.
        leave-After c before (enter_frame_resource_scope s.frame b).1 _ (λ f. refl)
          (r.run _ (alike c before [] s _ w w.fits (λ q j. refl)));
  }

module _ (c : Ceilings) (before : Origin) (sample : ℕ → ResourceSample)
    (exec : Memory → Table ℕ → Op → Action Next) (t : Target) where
  -- Where the fuel is to last, a limit on operations is reached before it, and the Program calls none.
  abbrev pub Enough : ℕ → ℕ → Type 0
  Enough steps ops =
      (before.timed ≡ false)
      ⊎ ((n : ℕ) × (t.memory.budget.max_ops ≡ pos (suc n)) × (suc n < steps + ops) × (ops ≤ suc n))

  abbrev pub SoundExec : Type 0
  SoundExec =
      (self : Memory) (labels : Table ℕ) (pc : ℕ) (op : Op)
      → get_elem? t.memory.program pc ≡ some op
      → Ends c before [] (exec self labels op)

  run_op-Ends :
      SoundExec
      → (labels : Table ℕ) (ops pc : ℕ) (op : Op) → get_elem? t.memory.program pc ≡ some op
      → Ends c before [] (run_op sample exec t labels ops op)
  unfolding run_op
  run_op-Ends sound labels ops pc op there = step (current-Runs t) (λ self. step_seq (lift-Runs _) (
      step_seq (reserve-Runs t.memory.budget (sample 0) (sample (2 * ops + 1)) ops op.code)
        (step (sound self labels pc op there) (λ next. step_seq (lift-Runs _) (pure-Ends next)))))

  -- At the limit, an operation is not executed.
  reserve-stops :
      (ops n : ℕ) (code : String) (s : State)
      → t.memory.budget.max_ops ≡ pos (suc n)
      → suc n ≤ ops
      → reserve t.memory.budget (sample 0) (sample (2 * ops + 1)) ops code s ≡ failed over_budget s
  unfolding reserve check_resource_budget_before_primitive lift
  reserve-stops ops n code s limit reached = ground arith

  run_op-stops :
      (labels : Table ℕ) (ops n : ℕ) (op : Op) (s : State)
      → t.memory.budget.max_ops ≡ pos (suc n)
      → suc n ≤ ops
      → (e : Error) × (u : State) × (run_op sample exec t labels ops op s ≡ failed e u)
  unfolding run_op current ◌>>=◌ ◌>>◌ continue lift
  run_op-stops labels ops n op s limit reached =
      let m = current_memory s t in
      let full = reserve-stops ops n op.code s limit reached in
      elim (Result-cases (check_primitive_capability m op.code)) [
        | inl (_, able) ↦ (over_budget, s, ground (arith, full))
        | inr (e, denied) ↦ (e, s, ground arith)
      ]

  -- An Action that fails, whatever was to follow.
  failing :
      (m : Action Next) (k : Next → Action (Unit {0}))
      → Ends c before [] m
      → ((s : State) → (e : Error) × (u : State) × (m s ≡ failed e u))
      → Ends c before [] (m >>= k)
  unfolding ◌>>=◌ continue
  failing m k ends fails = record {
    run = λ s w.
        let (e, u, same) = fails s in
        subst (λ o. After c before (λ _. []) (continue o k)) (sym same)
          (subst (After c before (λ _. [])) same (ends.run s w));
  }

  pub run_from-Ends :
      SoundExec
      → (labels : Table ℕ) (steps pc ops : ℕ) → Enough steps ops
      → Ends c before [] (run_from sample exec t labels steps pc ops)
  unfolding run_from tired
  run_from-Ends sound labels zero pc ops enough = at_pc (get_elem? t.memory.program pc)
    where
      at_pc :
          (o : Option Op)
          → Ends {A = Unit {0}} c before [] (elim o [ none ↦ pure tt | some _ ↦ tired ])
      at_pc none = pure-Ends tt
      at_pc (some op) = record {
        run = λ s w. elim enough [
          | inl untimed ↦ untimed
          | inr (n, limit, more, fewer) ↦ absurd (omega arith)
        ];
      }
  run_from-Ends sound labels (suc steps) pc ops enough =
      elim (get_elem? t.memory.program pc)
          as (λ o.
            get_elem? t.memory.program pc ≡ o
            → Ends {A = Unit {0}} c before [] (elim o [
              | none ↦ pure tt
              | some op ↦ run_op sample exec t labels ops op >>= λ next.
                  run_from sample exec t labels steps (next_pc pc next) (suc ops)
            ])) [
              | none ↦ λ at_end. pure-Ends tt
              | some op ↦ λ there.
                  let one = run_op-Ends sound labels ops pc op there in
                  elim enough [
                    | inl untimed ↦ step one (λ next.
                        run_from-Ends sound labels steps (next_pc pc next) (suc ops) (inl untimed))
                    | inr (n, limit, more, fewer) ↦ elim (Bool-cases (ltb ops (suc n))) [
                      | inl under ↦ step one (λ next.
                          run_from-Ends sound labels steps (next_pc pc next) (suc ops)
                            (inr (n, limit, omega arith, ground arith)))
                      | inr over ↦
                          failing _ _ one (λ s. run_op-stops labels ops n op s limit (ground arith))
                    ]
                  ]
            ]
        refl
