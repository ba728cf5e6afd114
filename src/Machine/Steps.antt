-- ===== src/Machine/Steps.antt =====
-- Kernel/src/kernel.go: the steps of the primitives keep a machine sound: texts that are expanded, variables
-- that are set, targets that are found and written.
use mathlib.Core.Path.{subst}
use memory_ai.Prelude.{
  String, ◌≡◌, refl, ◌∙◌, true, ◌&&◌, List, [], ◌∷◌, Option, none, some, ◌==◌, arith, Result-cases,
  Bool-cases, inl, inr, Result, ok, err, eof, unavailable, side_effect, failure,
}
use memory_ai.Prelude.Text.{trim_space}
use memory_ai.Model.{Memory, Op, Frame}
use memory_ai.Fabric.{resolve_local_fabric_memory}
use memory_ai.Fabric.Resolve.{resolve_local_fabric_memory_unique}
use memory_ai.Frames.{
  ensure_frame_var_write_within_physical_limit, Ceilings, expand_frame_value_bounded,
  set_frame_var_bounded,
}
use memory_ai.Security.{is_empty}
use memory_ai.Frames.Bounds.{vars_fit, frame_vars_exact}
use memory_ai.Machine.{
  Outcome, panicked, beyond, out_of_fuel, State, done, failed, Action, pure, fail, Host, x, set_var,
  set_out, check_out, lift, arg,
}
use memory_ai.Machine.Targets.{
  Target, look_up, target_at, found_or, resolve_only, resolve_mutable, resolve_executable, owner_of,
  need_owner, on_fabric, dirty_in, mark_dirty,
}
use memory_ai.Machine.Logic.{
  Origin, After, IsAlone, IsSound, Runs, Keeps, alike, forget, bind, pure-Runs, fail-Runs,
  reads-Runs, lift-Runs, if-Runs, shows-dirty,
}

-- A variable that is set leaves the Frame under its ceilings.
set-fits :
    (h : Host) (f g : Frame) (key value : String)
    → vars_fit h.ceilings f.vars ≡ true
    → set_frame_var_bounded h.ceilings f key value ≡ ok g
    → vars_fit h.ceilings g.vars ≡ true
unfolding set_frame_var_bounded
set-fits h f g key value fits e = ground (
  arith,
  frame_vars_exact h.ceilings f.vars f key value,
  Result-cases (ensure_frame_var_write_within_physical_limit h.ceilings f key value),
)

module _ (h : Host) {before : Origin} {ts : List Target} where
  pub x-Runs : (s : String) → Keeps h.ceilings before ts (x h s)
  unfolding x
  x-Runs s = record {
    run = λ st w. (lift-Runs (expand_frame_value_bounded h.ceilings s st.frame.vars)).run st w;
  }

  pub set_var-Runs : (key value : String) → Keeps h.ceilings before ts (set_var h key value)
  unfolding set_var
  set_var-Runs key value = record {
    run = λ st w. elim (Result-cases (set_frame_var_bounded h.ceilings st.frame key value)) [
      | inl (g, e) ↦
          let set = record st { frame = g } in
          subst (After h.ceilings before (λ _. ts)) {x = done tt set} {y = set_var h key value st}
            (ground arith)
            (alike h.ceilings before ts st set w (λ k. set-fits h st.frame g key value (w.fits k) e)
              (λ q j. refl))
      | inr (x, e) ↦
          subst (After h.ceilings before (λ _. ts)) {x = failed x st} {y = set_var h key value st}
            (ground arith) (forget h.ceilings before ts st w)
    ];
  }

  pub set_out-Runs :
      (op : Op) (name value : String) → Keeps h.ceilings before ts (set_out h op name value)
  unfolding set_out
  set_out-Runs op name value =
      if-Runs (arg op name == "") (pure-Runs tt) (set_var-Runs (arg op name) value)

  pub check_out-Runs :
      (op : Op) (name value : String) → Keeps h.ceilings before ts (check_out h op name value)
  unfolding check_out
  check_out-Runs op name value = elim (Bool-cases (arg op name == "")) [
    | inl none_named ↦ record {
      run = λ st w.
          subst (After h.ceilings before (λ _. ts)) {x = done tt st}
            {y = check_out h op name value st} (ground arith) w;
    }
    | inr named ↦ record {
      run = λ st w.
          let tested =
            ensure_frame_var_write_within_physical_limit h.ceilings st.frame (arg op name) value in
          subst (After h.ceilings before (λ _. ts)) {x = lift tested st}
            {y = check_out h op name value st} (ground arith) ((lift-Runs tested).run st w);
    }
  ]

-- The targets at hand after a look-up.
unfoldable pub found_targets : String → List Target → Result (String × Memory) → List Target
found_targets id ts (ok r) = target_at id r ∷ ts
found_targets id ts (err _) = ts

module _ {c : Ceilings} {before : Origin} {ts : List Target} where
  pub look_up-Runs : (id : String) → Runs c before ts (look_up id) (found_targets id ts)
  unfolding look_up found_targets
  look_up-Runs id = record {
    run = λ s w.
        let (r, f) = resolve_local_fabric_memory id s.fabric in
        let (found, absent, same) = resolve_local_fabric_memory_unique id s.fabric in
        let t = record s { fabric = f } in
        let sound = alike c before ts s t w w.fits same in
        answered s t sound r (λ o m e. (
          λ q ne. same q (trim_space id) ∙ (found o m e).1 q ne,
          same o (trim_space id) ∙ (found o m e).0,
        ));
  }
    where
      answered :
          (s t : State)
          → IsSound c before ts t
          → (r : Result (String × Memory))
          → ((o : String) (m : Memory)
              → r ≡ ok (o, m)
              → IsAlone t.fabric.bodies (target_at id (o, m)))
          → IsSound c before (found_targets id ts r) t
      answered s t w (err x) alone = w
      answered s t w (ok (o, m)) alone = record {
        fits = w.fits;
        once = w.once;
        earned = w.earned;
        alone = (alone o m refl, w.alone);
      }

  given : (t : Target) → Runs c before (t ∷ ts) (pure t) (λ u. u ∷ ts)
  unfolding pure
  given t = record { run = λ s w. w }

  found_or-Runs :
      (id : String) (other : Action Target) (r : Result (String × Memory))
      → Runs c before ts other (λ t. t ∷ ts)
      → Runs c before (found_targets id ts r) (found_or id other r) (λ t. t ∷ ts)
  unfolding found_targets found_or pure
  found_or-Runs id other (ok r) next = record { run = λ s w. w }
  found_or-Runs id other (err eof) next = next
  found_or-Runs id other (err unavailable) next = fail-Runs _
  found_or-Runs id other (err (side_effect e)) next = fail-Runs _
  found_or-Runs id other (err (failure e)) next = fail-Runs _

  resolve_only-Runs : (r : Result (List String)) → Runs c before ts (resolve_only r) (λ t. t ∷ ts)
  unfolding resolve_only
  resolve_only-Runs (err e) = fail-Runs _
  resolve_only-Runs (ok []) = fail-Runs _
  resolve_only-Runs (ok (id ∷ [])) =
      bind (look_up-Runs id) (λ r. found_or-Runs id _ r (fail-Runs _))
  resolve_only-Runs (ok (_ ∷ _ ∷ _)) = fail-Runs _

  pub resolve_mutable-Runs : (id : String) → Runs c before ts (resolve_mutable id) (λ t. t ∷ ts)
  unfolding resolve_mutable
  resolve_mutable-Runs id =
      bind (look_up-Runs id) (λ r. found_or-Runs id _ r (bind (reads-Runs _) resolve_only-Runs))

  pub resolve_executable-Runs :
      (id : String) → Runs c before ts (resolve_executable id) (λ t. t ∷ ts)
  unfolding resolve_executable
  resolve_executable-Runs id = bind (resolve_mutable-Runs id) (λ t.
      if-Runs (is_empty t.memory.program && is_empty t.memory.trigger) (fail-Runs _) (given t))

  -- found_targets adds at most one target, which may be dropped.
  fewer :
      (id : String) (r : Result (String × Memory)) (s : State)
      → IsSound c before (found_targets id ts r) s
      → IsSound c before ts s
  unfolding found_targets
  fewer id (err x) s w = w
  fewer id (ok r) s w = record {
    fits = w.fits;
    once = w.once;
    earned = w.earned;
    alone = w.alone.1;
  }

  -- A look-up whose target is not needed.
  pub look_up-Keeps : (id : String) → Keeps c before ts (look_up id)
  look_up-Keeps id = kept id (look_up-Runs id)
    where
      kept :
          (id : String)
          → Runs c before ts (look_up id) (found_targets id ts)
          → Keeps c before ts (look_up id)
      kept id r = record { run = λ s w. weaker (look_up id s) (r.run s w) }
        where
          weaker :
              (o : Outcome (Result (String × Memory)))
              → After c before (found_targets id ts) o
              → After c before (λ _. ts) o
          weaker (done a t) v = fewer id a t v
          weaker (failed e t) v = v
          weaker (panicked t) v = v
          weaker (beyond t) v = v
          weaker out_of_fuel v = v

  pub owner_of-Runs : (id : String) → Keeps c before ts (owner_of id)
  unfolding owner_of pure
  owner_of-Runs id = bind (look_up-Runs id) (λ r. record { run = λ s w. fewer id r s w })

  pub need_owner-Runs : (t : Target) → Keeps c before ts (need_owner t)
  unfolding need_owner
  need_owner-Runs t = bind (owner_of-Runs t.memory.id) (λ o. have o)
    where
      have :
          (o : Option String)
          → Keeps {A = String} c before ts
              (elim o [ none ↦ fail (failure "mutable owner unavailable") | some p ↦ pure p ])
      have none = fail-Runs _
      have (some p) = pure-Runs p

  pub dirty_in-Runs : (owner id : String) → Keeps c before ts (dirty_in owner id)
  unfolding dirty_in on_fabric
  dirty_in-Runs owner id = record {
    run = λ s w. alike c before ts s _ w w.fits (shows-dirty owner id s.fabric.bodies);
  }

  pub mark_dirty-Runs : (id : String) → Keeps c before ts (mark_dirty id)
  unfolding mark_dirty
  mark_dirty-Runs id = bind (owner_of-Runs id) (λ o. mark o)
    where
      mark :
          (o : Option String)
          → Keeps {A = Unit {0}} c before ts (elim o [ none ↦ pure tt | some p ↦ dirty_in p id ])
      mark none = pure-Runs tt
      mark (some p) = dirty_in-Runs p id
