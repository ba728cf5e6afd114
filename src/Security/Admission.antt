-- ===== src/Security/Admission.antt =====
-- Kernel/src/security_runtime.go: what an accepted Memory may and may not do.
use mathlib.Core.Bool.{false≢true}
use memory_ai.Prelude.{
  ap, ◌∙◌, ==_ne, ◌⊎◌, String, ◌≡◌, refl, sym, Bool, true, false, List, [], ◌∷◌, ◌==◌, eq_iff,
  arith, All, Result, ok, err, failure, Bool-cases, inl, inr, ◌>>=◌,
}
use memory_ai.Model.{Op, Memory}
use memory_ai.Security.{
  required_capability, grants, has_capability, check_primitive_capability, is_remote_denied,
  validate_op, validate_program, validate_declared, is_empty, validate_memory_capabilities,
}

-- Two results in a row succeed only if both do.
both-ok : (m k : Result (Unit {0})) → (m >>= λ _. k) ≡ ok tt → (m ≡ ok tt) × (k ≡ ok tt)
both-ok (ok u) k h = (refl, h)
both-ok (err e) k h = cc

validate_op-check :
    (m : Memory) (remote : Bool) (op : Op)
    → validate_op m remote op ≡ ok tt
    → check_primitive_capability m op.code ≡ ok tt
unfolding validate_op check_primitive_capability
validate_op-check m remote op h = ground arith

validate_op-denied :
    (m : Memory) (op : Op)
    → validate_op m true op ≡ ok tt
    → is_remote_denied (required_capability op.code) ≡ false
unfolding validate_op
validate_op-denied m op h = elim (Bool-cases (required_capability op.code == "")) [
  | inl e ↦ rw ((eq_iff _ _).0 e) (unfold is_remote_denied in refl)
  | inr e ↦ ground arith
]

validate_program-check :
    (m : Memory) (remote : Bool) (ops : List Op)
    → validate_program m remote ops ≡ ok tt
    → All (λ op. check_primitive_capability m op.code ≡ ok tt) ops
unfolding validate_program
validate_program-check m remote [] h = tt
validate_program-check m remote (op ∷ ops) h =
    let (now, later) = both-ok (validate_op m remote op) (validate_program m remote ops) h in
    (validate_op-check m remote op now, validate_program-check m remote ops later)

validate_program-denied :
    (m : Memory) (ops : List Op)
    → validate_program m true ops ≡ ok tt
    → All (λ op. is_remote_denied (required_capability op.code) ≡ false) ops
unfolding validate_program
validate_program-denied m [] h = tt
validate_program-denied m (op ∷ ops) h =
    let (now, later) = both-ok (validate_op m true op) (validate_program m true ops) h in
    (validate_op-denied m op now, validate_program-denied m ops later)

admin-denied : is_remote_denied "kernel.admin" ≡ true
unfolding is_remote_denied
admin-denied = refl

-- A list that declares no denied capability grants none.
validate_declared-grants :
    (caps : List String) (cap : String)
    → validate_declared caps ≡ ok tt
    → is_remote_denied cap ≡ true
    → grants caps cap ≡ false
unfolding validate_declared grants
validate_declared-grants [] c h d = refl
validate_declared-grants (c ∷ caps) wanted h d =
    let ih = validate_declared-grants caps wanted in
    elim (Bool-cases (is_remote_denied c)) [
      | inl bad ↦ absurd (declared_bad bad)
      | inr good ↦ rw (==_ne c wanted (λ e. false≢true (sym good ∙ ap is_remote_denied e ∙ d))) (
          rw
            (==_ne c "kernel.admin"
              (λ e. false≢true (sym good ∙ ap is_remote_denied e ∙ admin-denied)))
            (ih (declared_rest good) d))
    ]
  where
    declared_bad : is_remote_denied c ≡ true → ⊥
    declared_bad bad = ground arith

    declared_rest : is_remote_denied c ≡ false → validate_declared caps ≡ ok tt
    declared_rest good = ground arith

-- What validation as a remote Memory establishes, part by part.
module _ (verify : Memory → Bool) (m : Memory) where
  remote_parts :
      validate_memory_capabilities verify m true ≡ ok tt
      → (validate_program m true m.program ≡ ok tt)
        × (validate_declared m.capabilities ≡ ok tt)
        × ((is_empty m.program ≡ true) × (is_empty m.trigger ≡ true) ⊎ (verify m ≡ true))
  unfolding validate_memory_capabilities
  remote_parts h =
      let (p, rest) = both-ok (validate_program m true m.program) _ h in
      let (d, sig) = both-ok (validate_declared m.capabilities) _ rest in (p, d, ground arith)

  -- A Memory that passes validation, local or remote, is never denied an operation of the Program
  -- that was validated.
  pub validated-never_denied :
      (remote : Bool)
      → validate_memory_capabilities verify m remote ≡ ok tt
      → All (λ op. check_primitive_capability m op.code ≡ ok tt) m.program
  unfolding validate_memory_capabilities
  validated-never_denied remote h =
      validate_program-check m remote m.program
        (both-ok (validate_program m remote m.program) _ h).0

  -- A Memory that passes validation as a remote one is denied every operation whose capability is
  -- on the remote deny list, whatever Program it comes to run, none of its own operations needs
  -- such a capability, and if it has a Program or a Trigger then its signature was verified.
  pub remote_validated-confined :
      validate_memory_capabilities verify m true ≡ ok tt
      → ((code : String)
          → is_remote_denied (required_capability code) ≡ true
          → check_primitive_capability m code ≡ err (failure "capability denied"))
        × All (λ op. is_remote_denied (required_capability op.code) ≡ false) m.program
        × ((is_empty m.program ≡ true) × (is_empty m.trigger ≡ true) ⊎ (verify m ≡ true))
  unfolding check_primitive_capability has_capability
  remote_validated-confined h =
      let (p, d, sig) = remote_parts h in
      (
        λ code denied. deny code denied (validate_declared-grants m.capabilities _ d denied),
        validate_program-denied m m.program p,
        sig,
      )
    where
      deny :
          (code : String)
          → is_remote_denied (required_capability code) ≡ true
          → grants m.capabilities (required_capability code) ≡ false
          → check_primitive_capability m code ≡ err (failure "capability denied")
      deny code denied none_granted = elim (Bool-cases (required_capability code == "")) [
        | inl e ↦ absurd (
            false≢true
              (unfold is_remote_denied in (ap is_remote_denied (sym ((eq_iff _ _).0 e)) ∙ denied)))
        | inr e ↦ rw (e, none_granted) refl
      ]
