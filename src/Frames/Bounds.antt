-- ===== src/Frames/Bounds.antt =====
-- Kernel/src/physical_limits_runtime.go: the tests on a Frame are exact, so a Frame that only grows by
-- them never passes its ceilings.
use Prim.Native.String.{len}
use memory_ai.Prelude.{
  sym, ◌∙◌, ◌||◌, ℕ, ◌+◌, ◌≤◌, ◌<◌, String, ◌≡◌, refl, Bool, true, false, ◌&&◌, List, [], ◌∷◌, none,
  some, arith, leb, ltb, length, Bool-cases, Option-cases, Result-cases, inl, inr, is_ok, is_some,
}
use memory_ai.Prelude.Table.{Table, get, put, has, remove}
use memory_ai.Model.{Frame}
use memory_ai.Frames.{
  Ceilings, add_vars, add_texts, ensure_frame_value_bytes, ensure_frame_values,
  ensure_frame_vars_within_physical_limit, ensure_frame_var_write_within_physical_limit,
  set_frame_var_bounded, ensure_frame_output_append,
}

-- The bytes of a map of texts, and of a list of texts.
abbrev pub vars_bytes : Table String → ℕ
vars_bytes [] = 0
vars_bytes ((key, value) ∷ rest) = (len key + len value) + vars_bytes rest

abbrev pub texts_bytes : List String → ℕ
texts_bytes [] = 0
texts_bytes (t ∷ ts) = len t + texts_bytes ts

add_vars-exact :
    (max total : ℕ) (vars : Table String)
    → (elim (add_vars max total vars) [ none ↦ false | some t ↦ leb t max ])
      ≡ leb (total + vars_bytes vars) max
unfolding add_vars
add_vars-exact max total [] = ground arith
add_vars-exact max total ((key, value) ∷ rest) =
    elim (Bool-cases (ltb max (total + (len key + len value)))) [
      | inl over ↦ ground arith
      | inr under ↦ ground (arith, add_vars-exact max (total + (len key + len value)) rest)
    ]

add_vars-some :
    (max total : ℕ) (vars : Table String)
    → total ≤ max
    → is_some (add_vars max total vars) ≡ leb (total + vars_bytes vars) max
unfolding add_vars
add_vars-some max total [] h = ground arith
add_vars-some max total ((key, value) ∷ rest) h =
    elim (Bool-cases (ltb max (total + (len key + len value)))) [
      | inl over ↦ ground arith
      | inr under ↦
          ground (arith, add_vars-some max (total + (len key + len value)) rest (ground arith))
    ]

add_texts-some :
    (max total : ℕ) (ts : List String)
    → total ≤ max
    → is_some (add_texts max total ts) ≡ leb (total + texts_bytes ts) max
unfolding add_texts
add_texts-some max total [] h = ground arith
add_texts-some max total (t ∷ ts) h = elim (Bool-cases (ltb max (total + len t))) [
  | inl over ↦ ground arith
  | inr under ↦ ground (arith, add_texts-some max (total + len t) ts (ground arith))
]

module _ (c : Ceilings) where
  -- Every value is under the ceiling for values.
  abbrev pub values_fit : Table String → Bool
  values_fit [] = true
  values_fit ((key, value) ∷ rest) = leb (len value) c.value_max_bytes && values_fit rest

  -- Variables that a Frame may hold.
  abbrev pub vars_fit : Table String → Bool
  vars_fit vars =
      leb (length vars) c.var_max_items
      && (values_fit vars && leb (vars_bytes vars) c.var_max_bytes)

  -- Output lines that a Frame may hold, but for the ceiling on each.
  abbrev pub output_fits : List String → Bool
  output_fits output =
      leb (length output) c.output_max_items && leb (texts_bytes output) c.output_max_bytes

  values-exact : (vars : Table String) → is_ok (ensure_frame_values c vars) ≡ values_fit vars
  unfolding ensure_frame_values ensure_frame_value_bytes
  values-exact [] = refl
  values-exact ((key, value) ∷ rest) = ground (arith, values-exact rest)

  ensure_vars-exact :
      (vars : Table String) → is_ok (ensure_frame_vars_within_physical_limit c vars) ≡ vars_fit vars
  unfolding ensure_frame_vars_within_physical_limit
  ensure_vars-exact vars = ground (
    arith,
    values-exact vars,
    (add_vars-some c.var_max_bytes 0 vars (ground arith)),
    Result-cases (ensure_frame_values c vars),
    Option-cases (add_vars c.var_max_bytes 0 vars),
  )

  values_fit-remove :
      (vars : Table String) (key : String)
      → values_fit vars ≡ true
      → values_fit (remove vars key) ≡ true
  unfolding remove
  values_fit-remove [] key h = h
  values_fit-remove ((k, v) ∷ rest) key h = ground (arith, values_fit-remove rest key)

  length-remove :
      (vars : Table String) (key : String)
      → (length (remove vars key) ≤ length vars)
        × (has vars key ≡ true → length (remove vars key) < length vars)
        × (has vars key ≡ false → length (remove vars key) ≡ length vars)
  unfolding remove get
  length-remove [] key = (ground arith, λ h. ground arith, λ h. ground arith)
  length-remove ((k, v) ∷ rest) key =
      let (a, b, d) = length-remove rest key in
      (ground (arith, a), λ h. ground (arith, a, b), λ h. ground (arith, d))

  set-exact :
      (f : Frame) (key value : String)
      → vars_fit f.vars ≡ true
      → is_ok (set_frame_var_bounded c f key value) ≡ vars_fit (put f.vars key value)
  unfolding set_frame_var_bounded ensure_frame_var_write_within_physical_limit put
      ensure_frame_value_bytes
  set-exact f key value h =
      let rest = remove f.vars key in
      let fewer = length-remove f.vars key in
      elim (Option-cases (add_vars c.var_max_bytes (len key + len value) rest)) [
        | inl none_fits ↦ ground (
          arith,
          fewer,
          values_fit-remove f.vars key,
          add_vars-exact c.var_max_bytes (len key + len value) rest,
          Bool-cases (has f.vars key),
        )
        | inr (t, e) ↦ ground (
          arith,
          fewer,
          values_fit-remove f.vars key,
          add_vars-exact c.var_max_bytes (len key + len value) rest,
          Bool-cases (has f.vars key),
        )
      ]

-- The tests on a Frame's variables are exact: the test of any whole map of variables passes exactly
-- when that map is under the ceilings on items, on each value and on the bytes of all, and in a
-- Frame that is under them, a variable is set exactly when the Frame with it is under them too.
pub frame_vars_exact :
    (c : Ceilings) (vars : Table String) (f : Frame) (key value : String)
    → vars_fit c f.vars ≡ true
    → (is_ok (ensure_frame_vars_within_physical_limit c vars) ≡ vars_fit c vars)
      × (is_ok (set_frame_var_bounded c f key value) ≡ vars_fit c (put f.vars key value))
      × (is_ok (ensure_frame_vars_within_physical_limit c (put f.vars key value))
          ≡ is_ok (set_frame_var_bounded c f key value))
frame_vars_exact c vars f key value h =
    let set = set-exact c f key value h in
    (ensure_vars-exact c vars, set, ensure_vars-exact c (put f.vars key value) ∙ sym set)

-- No line was emitted before.
abbrev pub is_first : List String → Bool
is_first [] = true
is_first (_ ∷ _) = false

output-total :
    (max total : ℕ) (output : List String)
    → is_some (add_texts max total output)
      ≡ (is_first output || leb (total + texts_bytes output) max)
unfolding add_texts
output-total max total [] = refl
output-total max total (t ∷ ts) = elim (Bool-cases (ltb max (total + len t))) [
  | inl over ↦ ground arith
  | inr under ↦ ground (arith, add_texts-some max (total + len t) ts (ground arith))
]

-- An emission is accepted exactly when the value is under the ceiling for values, the output has
-- room for one line more, and, unless it is the first line, the bytes of the output with the value
-- are under the ceiling for output: the first line is not held against that ceiling.
pub output_append_exact :
    (c : Ceilings) (output : List String) (value : String)
    → is_ok (ensure_frame_output_append c output value) ≡ (
        leb (len value) c.value_max_bytes
        && (leb (length output + 1) c.output_max_items
            && (is_first output || leb (len value + texts_bytes output) c.output_max_bytes)))
unfolding ensure_frame_output_append ensure_frame_value_bytes
output_append_exact c output value = ground (
  arith,
  output-total c.output_max_bytes (len value) output,
  Option-cases (add_texts c.output_max_bytes (len value) output),
)
