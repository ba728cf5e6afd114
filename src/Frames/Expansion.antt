-- ===== src/Frames/Expansion.antt =====
-- Kernel/src/kernel.go, replaceAllFrameValueBounded and expandFrameValueBounded: templates do not grow
-- past the ceiling.
use Prim.Native.String as Str
use Prim.Native.String.{len}
use native.Mathlib.Nat.{le-div_iff_mul-le, mul_comm}
use memory_ai.Prelude.{
  ℕ, zero, suc, ◌+◌, ◌-◌, ◌*◌, ◌/◌, ◌≤◌, ◌<◌, String, ◌≡◌, [], ◌∷◌, ◌==◌, arith, ltb, nat_eq,
  Bool-cases, Result-cases, inl, inr, ok,
}
use memory_ai.Prelude.Find.{replace_all, count_text, len-replace_from}
use memory_ai.Prelude.Table.{Table}
use memory_ai.Frames.{
  Ceilings, replace_all_frame_value_bounded, expand_pass, expand_passes, expand_frame_value_bounded,
}

-- The bytes of a replacement under a bound that the division gives.
replaced-le :
    (max size kept n old new result : ℕ)
    → 0 < n
    → kept ≡ size - n * old
    → kept ≤ max
    → new ≤ (max - kept) / n
    → result + n * old ≡ size + n * new
    → result ≤ max
replaced-le max size kept n old new result p k h d e =
    let fits = (le-div_iff_mul-le {k = n} {x = new} {y = max - kept} p).0 d in
    elim (Bool-cases (ltb size (n * old))) [
      | inl over ↦ ground (arith, fits, mul_comm n new)
      | inr under ↦ ground (arith, fits, mul_comm n new)
    ]

module _ (c : Ceilings) where
  replace-le :
      (s old new t : String)
      → len s ≤ c.value_max_bytes
      → replace_all_frame_value_bounded c s old new ≡ ok t
      → len t ≤ c.value_max_bytes
  unfolding replace_all_frame_value_bounded
  replace-le s old new t h e =
      let n = count_text s old in
      let kept = len s - n * len old in
      elim (Bool-cases (nat_eq n 0)) [
        | inl zero_hits ↦ ground arith
        | inr some_hits ↦ ground (
          arith,
          replaced-le c.value_max_bytes (len s) kept n (len old) (len new)
              (len (replace_all s old new)),
          len-replace_from (len s) old new s,
        )
      ]

  expand_pass-le :
      (vars : Table String) (s t : String)
      → len s ≤ c.value_max_bytes
      → expand_pass c vars s ≡ ok t
      → len t ≤ c.value_max_bytes
  unfolding expand_pass
  expand_pass-le [] s t h e = ground arith
  expand_pass-le ((key, value) ∷ vars) s t h e =
      let old = Str.◌++◌ "{{" (Str.◌++◌ key "}}") in
      elim (Bool-cases (ltb c.value_max_bytes (len key + 4))) [
        | inl long ↦ expand_pass-le vars s t h (ground arith)
        | inr short ↦ elim (Result-cases (replace_all_frame_value_bounded c s old value)) [
          | inl (u, r) ↦ expand_pass-le vars u t (replace-le s old value u h r) (ground arith)
          | inr (x, r) ↦ ground arith
        ]
      ]

  expand_passes-le :
      (n : ℕ) (vars : Table String) (s t : String)
      → len s ≤ c.value_max_bytes
      → expand_passes c n vars s ≡ ok t
      → len t ≤ c.value_max_bytes
  unfolding expand_passes
  expand_passes-le zero vars s t h e = ground arith
  expand_passes-le (suc n) vars s t h e = elim (Result-cases (expand_pass c vars s)) [
    | inr (x, r) ↦ ground arith
    | inl (u, r) ↦
        let fits = expand_pass-le vars s u h r in
        elim (Bool-cases (u == s)) [
          | inl same ↦ ground arith
          | inr changed ↦ expand_passes-le n vars u t fits (ground arith)
        ]
  ]

  -- Whatever the variables hold, nested templates included, an expansion that succeeds is under the
  -- ceiling for values.
  pub expand_frame_value_bounded-le :
      (s : String) (vars : Table String) (t : String)
      → expand_frame_value_bounded c s vars ≡ ok t
      → len t ≤ c.value_max_bytes
  unfolding expand_frame_value_bounded
  expand_frame_value_bounded-le s vars t e = elim (Bool-cases (ltb c.value_max_bytes (len s))) [
    | inl long ↦ ground arith
    | inr short ↦ expand_passes-le 6 vars s t (ground arith) (ground arith)
  ]
