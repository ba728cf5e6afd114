-- ===== src/Machine/Texts.antt =====
-- Kernel/src/kernel.go, execPrimitive: the primitives on a Frame alone: variables, numbers, jumps, texts,
-- lists and output.
use Prim.Native.String as Str
use memory_ai.Prelude.{
  ℕ, ◌+◌, String, ◌&&◌, not, List, [], ◌∷◌, ◌++◌, none, some, ◌==◌, if◌then◌else◌, length,
  get_elem?, contains, failure,
}
use memory_ai.Prelude.Find.{cut, contains_text, itoa, atoi}
use memory_ai.Prelude.Int.{ℤ, pos, negsuc}
use memory_ai.Prelude.Table.{Table, get, has}
use memory_ai.Model.{Op, Memory}
use memory_ai.Frames.{ensure_frame_list_items, ensure_frame_join_bytes, ensure_frame_output_append}
use memory_ai.Machine.{
  Action, Next, Host, ◌>>=◌, ◌>>◌, pure, fail, lift, reads, get_var, get_list, set_list, set_output,
  arg, bit, x, set_var, set_out, truth,
}

-- ls[i], or the empty text out of range.
unfoldable pub item_at : List String → ℤ → String
item_at ls (negsuc _) = ""
item_at ls (pos i) = elim (get_elem? ls i) [ none ↦ "" | some v ↦ v ]

-- p, ok := labels[name]
unfoldable pub jump_to : Table ℕ → String → Action Next
jump_to labels name = elim (get labels name) [
  | none ↦ fail (failure "label missing")
  | some p ↦ pure (some p)
]

module _ (h : Host) where
  -- setv(key, f(x(a), x(b)))
  unfoldable pub set_binary : (String → String → String) → String → String → String → Action Next
  set_binary f key a b = do v ← x h a; w ← x h b; set_var h key (f v w); pure none

  unfoldable pub var_default : Op → Action Next
  var_default op = do
    old ← get_var op.a
    if old == "" then (do v ← x h op.b; set_var h op.a v) else pure tt
    pure none

  unfoldable pub num_div : Op → Action Next
  num_div op = do
    d ← x h op.c
    if h.is_zero d then set_var h op.a "0" else (do n ← x h op.b; set_var h op.a (h.div n d))
    pure none

  unfoldable pub jump_if : Table ℕ → Op → Action Next
  jump_if labels op = do v ← x h op.a; if truth h v then jump_to labels op.b else pure none

  unfoldable pub emit : Op → Action Next
  emit op = do
    value ← x h op.a
    output ← reads (λ s. s.frame.output)
    lift (ensure_frame_output_append h.ceilings output value)
    set_output (output ++ value ∷ [])
    pure none

  unfoldable pub str_after : Op → Action Next
  str_after op = do
    src ← get_var op.a
    sep ← x h op.b
    set_var h op.c (elim (cut src sep) [ none ↦ "" | some (u, v) ↦ v ])
    pure none

  unfoldable pub str_before : Op → Action Next
  str_before op = do
    src ← get_var op.a
    sep ← x h op.b
    set_var h op.c (elim (cut src sep) [ none ↦ src | some (u, v) ↦ u ])
    pure none

  unfoldable pub str_join : Op → Action Next
  str_join op = do
    left ← x h op.a
    sep ← x h (arg op "sep")
    right ← x h op.b
    lift (ensure_frame_join_bytes h.ceilings (left ∷ sep ∷ right ∷ []))
    set_var h op.c (Str.◌++◌ left (Str.◌++◌ sep right))
    pure none

  unfoldable pub list_get : Op → Action Next
  list_get op = do i ← x h op.b; ls ← get_list op.a; set_var h op.c (item_at ls (atoi i)); pure none

  unfoldable pub list_append : Op → Action Next
  list_append op = do
    old ← get_list op.a
    lift (ensure_frame_list_items h.ceilings (length old + 1))
    v ← x h op.b
    set_list op.a (old ++ v ∷ [])
    set_var h (Str.◌++◌ op.a "_count") (itoa (length old + 1))
    pure none

  unfoldable pub list_contains : Op → Action Next
  list_contains op = do
    want ← x h op.b
    ls ← get_list op.a
    if arg op "out" == ""
        then set_var h op.c (bit (contains ls want))
        else set_var h (arg op "out") (bit (contains ls want))
    pure none

  unfoldable pub list_unique_append : Op → Action Next
  list_unique_append op = do
    v ← x h op.b
    old ← get_list op.a
    if contains old v then pure tt else (do
      lift (ensure_frame_list_items h.ceilings (length old + 1))
      set_list op.a (old ++ v ∷ []))
    now ← get_list op.a
    set_var h (Str.◌++◌ op.a "_count") (itoa (length now))
    set_out h op "added_out" (bit (not (contains old v)))
    pure none

  -- A bare name of a variable stands for its value.
  unfoldable pub sha256_text : Op → Action Next
  sha256_text op = do
    expanded ← x h op.a
    value ← get_var op.a
    named ← reads (λ s. has s.frame.vars op.a)
    set_var h op.b
        (h.sha256_hex (if not (contains_text op.a "{{") && named then value else expanded))
    pure none

  unfoldable pub variable_cases : Memory → Table ℕ → Op → Table (Action Next)
  variable_cases self labels op =
      ("label", pure none)
      ∷ ("set", (do v ← x h op.b; set_var h op.a v; pure none))
      ∷ ("copy", (do v ← get_var op.b; set_var h op.a v; pure none))
      ∷ ("var_default", var_default op)
      ∷ ("var_set", (do k ← x h op.a; v ← x h op.b; set_var h k v; pure none))
      ∷ ("var_get", (do k ← x h op.a; v ← get_var k; set_var h op.b v; pure none))
      ∷ ("self", set_var h op.a self.id >> pure none)
      ∷ []

  unfoldable pub number_cases : Table ℕ → Op → Table (Action Next)
  number_cases labels op =
      ("list_len", (do ls ← get_list op.a; set_var h op.b (itoa (length ls)); pure none))
      ∷ ("list_get", list_get op)
      ∷ ("num_add", set_binary h.add op.a op.b op.c)
      ∷ ("num_sub", set_binary h.sub op.a op.b op.c)
      ∷ ("num_mul", set_binary h.mul op.a op.b op.c)
      ∷ ("num_div", num_div op)
      ∷ ("cmp_gt", set_binary (λ a b. bit (h.is_less b a)) op.a op.b op.c)
      ∷ ("cmp_ge", set_binary (λ a b. bit (h.is_at_most b a)) op.a op.b op.c)
      ∷ ("cmp_lt", set_binary (λ a b. bit (h.is_less a b)) op.a op.b op.c)
      ∷ ("cmp_le", set_binary (λ a b. bit (h.is_at_most a b)) op.a op.b op.c)
      ∷ ("cmp_eq", set_binary (λ a b. bit (a == b)) op.a op.b op.c)
      ∷ ("jump", jump_to labels op.a)
      ∷ ("jump_if", jump_if labels op)
      ∷ []

  unfoldable pub text_cases : Memory → Op → Table (Action Next)
  text_cases self op =
      ("emit", emit op)
      ∷ ("url_escape", (do v ← get_var op.a; set_var h op.b (h.query_escape v); pure none))
      ∷ ("str_after", str_after op)
      ∷ ("str_before", str_before op)
      ∷ ("str_contains", set_binary (λ a b. bit (contains_text a b)) op.a op.b op.c)
      ∷ ("list_append", list_append op)
      ∷ ("list_contains", list_contains op)
      ∷ ("list_unique_append", list_unique_append op)
      ∷ ("sha256_text", sha256_text op)
      ∷ ("str_join", str_join op)
      ∷ ("str_len", (do v ← x h op.a; set_var h op.b (itoa (h.rune_count v)); pure none))
      ∷ ("halt", pure (some (length self.program)))
      ∷ []
