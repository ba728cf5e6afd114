-- ===== src/Frames/Tests.antt =====
-- Concrete runs of the ceilings on a Frame.
use memory_ai.Prelude.{
  ◌+◌, String, ◌&&◌, ◌||◌, List, [], ◌∷◌, some, ok, ◌≤◌, ◌≡◌, refl, leb, length, is_ok,
}
use memory_ai.Prelude.Table.{put}
use Prim.Native.String.{len}
use memory_ai.Prelude.Text.{trim_space, trim_left, trim_right, is_blank}
use memory_ai.Prelude.Find.{atoi, read_digits, count_from, cut, replace_from, split_csv, split_from}
use memory_ai.Model.{Frame}
use memory_ai.Frames.{
  expand_passes, expand_pass, replace_all_frame_value_bounded, Ceilings, bounded_physical_env,
  set_frame_var_bounded, split_csv_physical_bounded, ensure_frame_vars_within_physical_limit,
  ensure_frame_output_append, expand_frame_value_bounded,
}
use memory_ai.Frames.Bounds.{vars_fit, is_first, texts_bytes, frame_vars_exact, output_append_exact}
use memory_ai.Frames.Expansion.{expand_frame_value_bounded-le}
use memory_ai.Samples.{empty_frame}

-- Small ceilings.
abbrev small : Ceilings
small = record {
  value_max_bytes = 20;
  var_max_items = 2;
  var_max_bytes = 30;
  list_max_items = 4;
  output_max_items = 3;
  output_max_bytes = 10;
  event_var_max_items = 2;
  event_var_max_bytes = 16;
  program_max_ops = 8;
  program_max_bytes = 400;
  program_size = λ p. some 100;
}

abbrev two_vars : Frame
two_vars = record empty_frame { vars = ("a", "one") ∷ ("b", "{{a}}!") ∷ [] }

env_reads : bounded_physical_env " 12 " 5 100 ≡ 12
unfolding bounded_physical_env trim_space trim_left trim_right is_blank atoi read_digits
env_reads = refl

env_clamps : bounded_physical_env "1200" 5 100 ≡ 100
unfolding bounded_physical_env trim_space trim_left trim_right is_blank atoi read_digits
env_clamps = refl

env_falls_back : bounded_physical_env "-3" 5 100 ≡ 5
unfolding bounded_physical_env trim_space trim_left trim_right is_blank atoi read_digits
env_falls_back = refl

expands_twice : expand_frame_value_bounded small "say {{b}}" two_vars.vars ≡ ok "say one!"
unfolding expand_frame_value_bounded expand_passes expand_pass replace_all_frame_value_bounded
    count_from cut replace_from
expands_twice = refl

splits : split_csv_physical_bounded small "a, b,,c " 3 ≡ ok ("a" ∷ "b" ∷ "c" ∷ [])
unfolding split_csv_physical_bounded split_csv split_from trim_space trim_left trim_right is_blank
splits = refl

frame_vars_exact_example :
    (is_ok (ensure_frame_vars_within_physical_limit small (("key", "value") ∷ []))
      ≡ vars_fit small (("key", "value") ∷ []))
    × (is_ok (set_frame_var_bounded small two_vars "a" "a longer text")
        ≡ vars_fit small (put two_vars.vars "a" "a longer text"))
    × (is_ok (ensure_frame_vars_within_physical_limit small (put two_vars.vars "a" "a longer text"))
        ≡ is_ok (set_frame_var_bounded small two_vars "a" "a longer text"))
frame_vars_exact_example =
    frame_vars_exact small (("key", "value") ∷ []) two_vars "a" "a longer text" refl

abbrev no_lines : List String
no_lines = []

output_append_exact_example :
    is_ok (ensure_frame_output_append small no_lines "more than ten bytes") ≡ (
      leb (len "more than ten bytes") small.value_max_bytes
      && (leb (length no_lines + 1) small.output_max_items
          && (is_first no_lines
              || leb (len "more than ten bytes" + texts_bytes no_lines) small.output_max_bytes)))
output_append_exact_example = output_append_exact small no_lines "more than ten bytes"

expand_frame_value_bounded-le_example : len "say one!" ≤ small.value_max_bytes
expand_frame_value_bounded-le_example =
    expand_frame_value_bounded-le small "say {{b}}" two_vars.vars "say one!" expands_twice
