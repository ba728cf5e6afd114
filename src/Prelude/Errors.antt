-- ===== src/Prelude/Errors.antt =====
-- Go's `(value, error)` and `error` results. A function that has no value returns `Result Unit`.
use mathlib.Core.Path.{◌≡◌, refl}
use mathlib.Core.Logic.{◌⊎◌, inl, inr}
use mathlib.Core.Bool.{Bool, true, false}
use Prim.Native.String.{String}

-- `eof` is `io.EOF`, `side_effect` is `errSpeculativeSideEffect`, `unavailable` is
-- `errMutationJournalUnavailable`; every other error is its message without the operands.
pub data Error : Type 0 where
  eof unavailable : Error
  side_effect failure : String → Error

pub data Result {ℓ} (A : Type ℓ) : Type ℓ where
  ok : A → Result A
  err : Error → Result A

abbrev pub is_ok {ℓ} : {A : Type ℓ} → Result A → Bool
is_ok (ok _) = true
is_ok (err _) = false

infixl 5 ◌>>=◌ ◌>>◌
-- `if err != nil { return err }` after a call.
abbrev pub ◌>>=◌ {ℓ κ} : {A : Type ℓ} {B : Type κ} → Result A → (A → Result B) → Result B
err x >>= next = err x
ok a >>= next = next a

-- `if bad { return fmt.Errorf(…) }`
abbrev pub reject_if : Bool → Error → Result (Unit {0})
reject_if true e = err e
reject_if false e = ok tt

abbrev pub ◌>>◌ {ℓ} : {B : Type ℓ} → Result (Unit {0}) → Result B → Result B
m >> next = m >>= λ _. next

pub Result-cases {ℓ} :
    {A : Type ℓ} (r : Result A) → ((a : A) × (r ≡ ok a)) ⊎ ((e : Error) × (r ≡ err e))
Result-cases (ok a) = inl (a, refl)
Result-cases (err e) = inr (e, refl)
