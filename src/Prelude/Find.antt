-- ===== src/Prelude/Find.antt =====
-- Searching, cutting, splitting and replacing in texts, as Go's `strings` and `strconv` do. Lengths and
-- positions count the bytes of the UTF-8.
use Prim.Native.Nat.{ℕ, zero, suc, ◌+◌, ◌-◌, ◌*◌, ◌/◌, ◌%◌}
use Prim.Native.Char.{code}
use Prim.Native.String as Str
use Prim.Native.String.{String, len, find, slice}
use mathlib.Core.Bool.{Bool, true, false, ◌&&◌}
use mathlib.Core.List.{List, [], ◌∷◌}
use mathlib.Core.Logic.{inl, inr}
use mathlib.Core.Option.{Option, none, some}
use mathlib.Core.Path.{◌≡◌, refl, ap, ◌∙◌}
use native.Mathlib.Nat.{zero-mul, suc-mul}
use native.Mathlib.Omega.{arith}
use text.Mathlib.Text.{◌==◌}
use text.Mathlib.TextFind.{find_cases}
use text.Mathlib.TextPositions.{len-append, slice-append_left, slice-append_right}
use text.Mathlib.TextLemmas.{append_assoc}
use memory_ai.Prelude.Int.{ℤ, pos, negsuc}
use memory_ai.Prelude.Lists.{get_elem?}
use memory_ai.Prelude.Tests.{leb, ltb, nat_eq, if◌then◌else◌, Option-cases}
use memory_ai.Prelude.Text.{trim_space}

-- The text before the first occurrence of another, and the text after it: strings.Index and the slices
-- around it.
unfoldable pub cut : String → String → Option (String × String)
cut s sep =
    let i = find s sep in
    if leb i (len s) then some (slice s 0 i, slice s (i + len sep) (len s)) else none

-- strings.Contains
abbrev pub contains_text : String → String → Bool
contains_text s sub = leb (find s sub) (len s)

-- strings.ReplaceAll and strings.Count for a text that is not empty; n is at least the number of bytes.
unfoldable pub replace_from : ℕ → String → String → String → String
replace_from zero old new s = s
replace_from (suc n) old new s = elim (cut s old) [
  | none ↦ s
  | some (u, v) ↦ Str.◌++◌ u (Str.◌++◌ new (replace_from n old new v))
]

unfoldable pub count_from : ℕ → String → String → ℕ
count_from zero old s = 0
count_from (suc n) old s = elim (cut s old) [ none ↦ 0 | some (u, v) ↦ suc (count_from n old v) ]

abbrev pub replace_all : String → String → String → String
replace_all s old new = replace_from (len s) old new s

abbrev pub count_text : String → String → ℕ
count_text s old = count_from (len s) old s

-- strings.Split at a comma, each part trimmed, the blank ones left out. `word` is the part so far.
unfoldable pub split_from : String → String → List String
split_from word Str.[] = let w = trim_space word in if w == "" then [] else w ∷ []
split_from word (Str.◌∷◌ c s) = elim (nat_eq (code c) b',') [
  | true ↦ let w = trim_space word in if w == "" then split_from "" s else w ∷ split_from "" s
  | false ↦ split_from (Str.◌++◌ word (Str.◌∷◌ c "")) s
]

-- strconv.Itoa of a number that is not negative.
abbrev digits : List String
digits = "0" ∷ "1" ∷ "2" ∷ "3" ∷ "4" ∷ "5" ∷ "6" ∷ "7" ∷ "8" ∷ "9" ∷ []

abbrev pub digit : ℕ → String
digit n = elim (get_elem? digits n) [ none ↦ "" | some d ↦ d ]

unfoldable pub print_from : ℕ → ℕ → String
print_from zero n = digit n
print_from (suc fuel) n = elim (ltb n 10) [
  | true ↦ digit n
  | false ↦ Str.◌++◌ (print_from fuel (n / 10)) (digit (n % 10))
]

unfoldable pub itoa : ℕ → String
unfolding print_from
itoa n = print_from n n

-- strconv.Atoi without its error, which the source drops: 0 for what is no number. A number beyond
-- int64 is not cut to it here: what adds it up, or takes it for an error, does that.
unfoldable pub read_digits : ℕ → String → Option ℕ
read_digits n Str.[] = some n
read_digits n (Str.◌∷◌ c s) = elim (leb b'0' (code c) && leb (code c) b'9') [
  | true ↦ read_digits (10 * n + (code c - b'0')) s
  | false ↦ none
]

abbrev pub read_number : String → Option ℕ
read_number Str.[] = none
read_number (Str.◌∷◌ c s) = read_digits 0 (Str.◌∷◌ c s)

unfoldable pub atoi : String → ℤ
unfolding read_digits
atoi Str.[] = pos 0
atoi (Str.◌∷◌ c s) =
    if nat_eq (code c) b'-'
    then elim (read_number s) [ none ↦ pos 0 | some zero ↦ pos 0 | some (suc n) ↦ negsuc n ]
    else if nat_eq (code c) b'+'
    then elim (read_number s) [ none ↦ pos 0 | some n ↦ pos n ]
    else elim (read_number (Str.◌∷◌ c s)) [ none ↦ pos 0 | some n ↦ pos n ]

-- splitCSV
unfoldable pub split_csv : String → List String
unfolding split_from
split_csv s = if trim_space s == "" then [] else split_from "" s

-- A cut finds the first occurrence: the parts make up the text.
pub cut-parts : (s sep u v : String) → cut s sep ≡ some (u, v) → s ≡ Str.◌++◌ u (Str.◌++◌ sep v)
unfolding cut
cut-parts s sep u v h = elim (find_cases s sep) [
  | inr miss ↦ ground arith
  | inl (u', v', whole, at) ↦ ground (
    arith,
    whole,
    at,
    slice-append_left u' (Str.◌++◌ sep v'),
    slice-append_right (Str.◌++◌ u' sep) v',
    len-append u' sep,
    len-append u' (Str.◌++◌ sep v'),
    len-append sep v',
    append_assoc u' sep v',
  )
]

pub cut-len : (s sep u v : String) → cut s sep ≡ some (u, v) → len s ≡ len u + (len sep + len v)
cut-len s sep u v h =
    ap len (cut-parts s sep u v h)
    ∙ len-append u (Str.◌++◌ sep v)
    ∙ ap (λ n. len u + n) (len-append sep v)

-- What a replacement does to the length.
pub len-replace_from :
    (n : ℕ) (old new s : String)
    → len (replace_from n old new s) + count_from n old s * len old
      ≡ len s + count_from n old s * len new
unfolding replace_from count_from
len-replace_from zero old new s = simp zero-mul refl
len-replace_from (suc n) old new s = elim (Option-cases (cut s old)) [
  | inl miss ↦ ground (arith, zero-mul (len old), zero-mul (len new))
  | inr ((u, v), hit) ↦
      let rest = replace_from n old new v in
      ground (
        arith,
        cut-len s old u v hit,
        len-replace_from n old new v,
        len-append u (Str.◌++◌ new rest),
        len-append new rest,
        suc-mul (count_from n old v) (len old),
        suc-mul (count_from n old v) (len new),
      )
]
