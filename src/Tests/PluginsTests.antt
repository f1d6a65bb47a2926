-- ===== src/Tests/PluginsTests.antt =====
-- Plugins at concrete inputs.
use circonus_agent.Prelude.{ℕ, ◌≡◌, refl, true, false, none, some, List, [], ◌∷◌, ◌++◌}
use circonus_agent.Prelude.Bytes.{Bytes, codes, equal, contains, has_byte}
use circonus_agent.Prelude.Int.{pos}
use circonus_agent.Tags.{from_list, metric_name_with_stream_tags}
use circonus_agent.Plugins.Output.{
  Lib, underscored, of_kind, typed_value, named, parse_line, parse_lines, int32, text,
}
use circonus_agent.Plugins.Run.{
  Execution, Plugin, base_tag_list, parse_plugin_output, reset_status, scan, begun, exec, goes_on,
}
use circonus_agent.Plugins.Lifecycle.{IsExclusive, exec-IsExclusive}
use circonus_agent.Plugins.Duplicates.{line_of}
use circonus_agent.Plugins.Repeated.{HoldsMetric, parse_plugin_output_last_wins}

abbrev same_text : Bytes → Bytes
same_text s = s

-- No floats and no JSON.
abbrev sample_lib : Lib
sample_lib = record {
  Float = ℕ;
  Json = Unit {0};
  to_lower = same_text;
  remove_spaces = same_text;
  trim_space = same_text;
  parse_float = λ _. none;
  decode = λ _. none;
}

abbrev idle_plugin : Plugin sample_lib
idle_plugin = record {
  id = codes "p";
  instance_id = [];
  base_tags = [];
  last_error = none;
  curr_start = 0;
  last_start = 0;
  last_end = 0;
  metrics = none;
  prev_metrics = none;
  last_run_duration = 0;
  run_ttl = 0;
  running = false;
}

abbrev one_line : List Bytes
one_line = line_of (codes "a") (codes "i") (codes "1") ∷ []

abbrev run_of : List Bytes → Execution
run_of ls = record {
  started = 5;
  ended = 9;
  has_pipe = true;
  starts = true;
  lines = ls;
  output_ends = true;
  exits = true;
  scan_fails = false;
  exit_fails = false;
}

int_line :
    parse_lines sample_lib [] one_line []
    ≡ (codes "a", of_kind sample_lib (codes "i") (int32 (pos 1))) ∷ []
unfolding parse_lines parse_line metric_name_with_stream_tags from_list
int_line = refl

out_of_range : typed_value sample_lib (codes "i") (codes "2147483648") ≡ none
unfolding typed_value
out_of_range = refl

exec-IsExclusive_example :
    IsExclusive sample_lib idle_plugin
      (run_of one_line)
      (exec sample_lib idle_plugin (run_of one_line))
exec-IsExclusive_example = exec-IsExclusive sample_lib idle_plugin (run_of one_line)

-- A command that puts out a line and a blank one, and goes on.
abbrev long_run : Execution
long_run = record (run_of (one_line ++ ([] ∷ []))) { output_ends = false; exits = false }

long_run_goes_on :
    exec sample_lib idle_plugin long_run
    ≡ goes_on (record (begun sample_lib idle_plugin long_run) {
      metrics = some (parse_lines sample_lib (base_tag_list sample_lib idle_plugin) one_line []);
    })
unfolding exec scan parse_plugin_output base_tag_list
long_run_goes_on = refl

abbrev blank_run : Execution
blank_run = run_of (one_line ++ ([] ∷ []))

abbrev emptied : Plugin sample_lib
emptied =
    reset_status sample_lib (record (begun sample_lib idle_plugin blank_run) { metrics = some [] })
      9 none

abbrev full_plugin : Plugin sample_lib
full_plugin = record idle_plugin {
  metrics = some ((codes "a", of_kind sample_lib (codes "i") (int32 (pos 1))) ∷ []);
}

parse_plugin_output_last_wins_example :
    HoldsMetric sample_lib idle_plugin
      (named sample_lib (codes "a") (base_tag_list sample_lib idle_plugin))
      (of_kind sample_lib (codes "s") (text (codes "x")))
      (parse_plugin_output sample_lib idle_plugin (
        line_of (codes "a") (codes "i") (codes "1")
        ∷ line_of (codes "a") (codes "s") (codes "x")
        ∷ []))
unfolding has_byte contains underscored equal typed_value
parse_plugin_output_last_wins_example =
    parse_plugin_output_last_wins sample_lib idle_plugin one_line (codes "a") (codes "s")
      (codes "x") (text (codes "x")) refl refl (refl, refl, refl, refl, refl, refl, refl)
