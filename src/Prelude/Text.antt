-- ===== src/Prelude/Text.antt =====
-- What the source uses of Go's `strings` and `sort` packages.
use Prim.Native.Nat.{ℕ}
use Prim.Native.Char.{code}
use Prim.Native.String.{String}
use Prim.Native.Nat.{compare, Ordering}
use mathlib.Core.Bool.{Bool, true, false, ◌&&◌, ◌||◌}
use mathlib.Core.List.{List, [], ◌∷◌}
use mathlib.Core.Path.{◌≡◌, refl, ap, ◌∙◌}
use native.Mathlib.Omega.{arith}
use text.Mathlib.Text.{◌==◌}
use memory_ai.Prelude.Lists.{contains}
use memory_ai.Prelude.Tests.{leb, nat_eq, if◌then◌else◌}

-- unicode.IsSpace
unfoldable pub is_space : ℕ → Bool
is_space c =
    (leb 9 c && leb c 13)
    || nat_eq c 32
    || nat_eq c 0x85
    || nat_eq c 0xA0
    || nat_eq c 0x1680
    || (leb 0x2000 c && leb c 0x200a)
    || nat_eq c 0x2028
    || nat_eq c 0x2029
    || nat_eq c 0x202f
    || nat_eq c 0x205f
    || nat_eq c 0x3000

unfoldable pub trim_left : String → String
unfolding is_space
trim_left String.[] = String.[]
trim_left (String.◌∷◌ c s) =
    let rest = trim_left s in if is_space (code c) then rest else String.◌∷◌ c s

-- A text of spaces only, from here on.
unfoldable pub is_blank : String → Bool
unfolding is_space
is_blank String.[] = true
is_blank (String.◌∷◌ c s) = let rest = is_blank s in is_space (code c) && rest

unfoldable pub trim_right : String → String
unfolding is_space is_blank
trim_right String.[] = String.[]
trim_right (String.◌∷◌ c s) =
    let rest = String.◌∷◌ c (trim_right s) in
    if is_space (code c) && is_blank s then String.[] else rest

-- strings.TrimSpace
unfoldable pub trim_space : String → String
unfolding trim_left trim_right
trim_space s = trim_right (trim_left s)

-- s <= t in Go's order of bytes, which is the order of the code points.
unfoldable pub text_le : String → String → Bool
text_le String.[] t = true
text_le (String.◌∷◌ c s) String.[] = false
text_le (String.◌∷◌ c s) (String.◌∷◌ d t) =
    let rest = text_le s t in
    elim (compare (code c) (code d)) [
      | Ordering.lt ↦ true
      | Ordering.eq ↦ rest
      | Ordering.gt ↦ false
    ]

unfoldable pub insert_sorted : String → List String → List String
insert_sorted x [] = x ∷ []
insert_sorted x (y ∷ ys) =
    let rest = insert_sorted x ys in if text_le x y then x ∷ y ∷ ys else y ∷ rest

-- sort.Strings
unfoldable pub sort_strings : List String → List String
unfolding text_le
sort_strings [] = []
sort_strings (x ∷ xs) = insert_sorted x (sort_strings xs)

contains-insert_sorted :
    (x : String) (ys : List String) (s : String)
    → contains (insert_sorted x ys) s ≡ (x == s || contains ys s)
unfolding insert_sorted contains
contains-insert_sorted x [] s = refl
contains-insert_sorted x (y ∷ ys) s = ground (arith, contains-insert_sorted x ys s)

-- Sorting keeps what a list contains.
pub contains-sort_strings :
    (xs : List String) (s : String) → contains (sort_strings xs) s ≡ contains xs s
unfolding sort_strings contains
contains-sort_strings [] s = refl
contains-sort_strings (x ∷ xs) s =
    contains-insert_sorted x (sort_strings xs) s
    ∙ ap (λ b. x == s || b) (contains-sort_strings xs s)
