-- ===== src/Plugins/Run.antt =====
-- internal/plugins/plugin.go: a plugin, its runs, and the metrics that it holds.
use circonus_agent.Prelude.{
  ℕ, ◌-◌, Bool, true, false, not, ◌&&◌, Option, none, some, List, [], ◌∷◌, ◌++◌, ltb, ◌==◌,
  if◌then◌else◌,
}
use circonus_agent.Prelude.Bytes.{Bytes, codes, is_empty, join}
use circonus_agent.Plugins.Output.{Lib, Metrics, parse_lines, parse_json}

pub data ParseError : Type 0 where
  zero_lines json_parse : ParseError

-- Errors of a run; `wait_error` has the error of the scanner with it, if there was one.
pub data ExecError : Type 0 where
  ttl_not_expired stdout_pipe cmd_start scanner_error : ExecError
  wait_error : Bool → ExecError

-- What a run meets: the time at its start and at its end, whether there is a pipe for the output and
-- the command starts, the lines of output so far, whether the output ends behind them and the command
-- then exits (a long running plugin does not), whether the scanner fails at the end of the output, and
-- whether the command exits with an error.
pub record Execution : Type 0 where
  pub started : ℕ
  pub ended : ℕ
  pub has_pipe : Bool
  pub starts : Bool
  pub lines : List Bytes
  pub output_ends : Bool
  pub exits : Bool
  pub scan_fails : Bool
  pub exit_fails : Bool

abbrev pub run_error : Bool → Bool → Option ExecError
run_error scan_fails true = some (wait_error scan_fails)
run_error true false = some scanner_error
run_error false false = none

module _ (lib : Lib) where
  -- Times and durations are in nanoseconds, the zero time is 0. What only starts the command, its
  -- path, directory and arguments, is not state of the run.
  pub record Plugin : Type 0 where
    pub id : Bytes
    pub instance_id : Bytes
    pub base_tags : List Bytes
    pub last_error : Option ExecError
    pub curr_start : ℕ
    pub last_start : ℕ
    pub last_end : ℕ
    pub metrics : Option (Metrics lib)
    pub prev_metrics : Option (Metrics lib)
    pub last_run_duration : ℕ
    pub run_ttl : ℕ
    pub running : Bool

  abbrev pub or_empty : Option (Metrics lib) → Metrics lib
  or_empty none = []
  or_empty (some m) = m

  abbrev pub drained : Plugin → Option (Metrics lib) → Metrics lib × Plugin
  drained p none = (or_empty p.prev_metrics, p)
  drained p (some m) = (m, record p { metrics = none; prev_metrics = some m })

  unfoldable pub drain : Plugin → Metrics lib × Plugin
  drain p = drained p p.metrics

  unfoldable pub base_tag_list : Plugin → List Bytes
  base_tag_list p =
      (codes "source:circonus-agent" ∷ (codes "collector:" ++ p.id) ∷ [])
      ++ ((if is_empty p.instance_id then [] else (codes "instance:" ++ p.instance_id) ∷ [])
          ++ p.base_tags)

  -- `output[0][:1]` panics where the first line is empty.
  pub data Parsed : Type 0 where
    parsed : Plugin → Option ParseError → Parsed
    panics : Parsed

  abbrev pub decoded : Plugin → Option (List (Bytes × Bytes × List Bytes × Lib.Json lib)) → Parsed
  decoded p none = parsed (record p { metrics = some [] }) (some json_parse)
  decoded p (some jm) =
      parsed (record p { metrics = some (parse_json lib (base_tag_list p) jm []) }) none

  unfoldable pub parse_plugin_output : Plugin → List Bytes → Parsed
  unfolding join
  parse_plugin_output p [] = parsed (record p { metrics = some [] }) (some zero_lines)
  parse_plugin_output p ([] ∷ lines) = panics
  parse_plugin_output p ((c ∷ line) ∷ lines) =
      if c == b'{'
      then decoded p (lib.decode (join (10 ∷ []) ((c ∷ line) ∷ lines)))
      else parsed
          (record p { metrics = some (parse_lines lib (base_tag_list p) ((c ∷ line) ∷ lines) []) })
          none

  abbrev pub reset_status : Plugin → ℕ → Option ExecError → Plugin
  reset_status p ended e = record p {
    last_start = p.curr_start;
    last_end = ended;
    last_run_duration = ended - p.curr_start;
    last_error = e;
    running = false;
  }

  -- `exec` logs what `parsePluginOutput` returns, and goes on; `none` is a panic.
  abbrev pub after_parse : Parsed → Option Plugin
  after_parse (parsed p e) = some p
  after_parse panics = none

  -- The loop over the scanner, with the lines of the buffer. Where the output ends, the rest of it is
  -- parsed; where it does not, the loop waits for the next line with the rest in the buffer.
  unfoldable pub scan : Bool → Plugin → List Bytes → List Bytes → Option Plugin
  unfolding parse_plugin_output
  scan output_ends p buffer [] =
      if output_ends then after_parse (parse_plugin_output p buffer) else some p
  scan output_ends p buffer ([] ∷ lines) = elim (after_parse (parse_plugin_output p buffer)) [
    | none ↦ none
    | some q ↦ scan output_ends q [] lines
  ]
  scan output_ends p buffer ((c ∷ line) ∷ lines) =
      scan output_ends p (buffer ++ ((c ∷ line) ∷ [])) lines

  -- `exec` has returned, or its command goes on, with the plugin as it is meanwhile.
  pub data Executed : Type 0 where
    executed : Plugin → Option ExecError → Executed
    goes_on : Plugin → Executed
    exec_panics : Executed

  abbrev pub finish : Execution → Option Plugin → Executed
  finish x none = exec_panics
  finish x (some p) =
      if x.output_ends && x.exits
      then executed (reset_status p x.ended (run_error x.scan_fails x.exit_fails))
          (run_error x.scan_fails x.exit_fails)
      else goes_on p

  abbrev pub begun : Plugin → Execution → Plugin
  begun p x = record p { curr_start = x.started; running = true }

  unfoldable pub exec : Plugin → Execution → Executed
  exec p x =
      if ltb 0 p.run_ttl && ltb (x.started - p.last_end) p.run_ttl
      then executed p (some ttl_not_expired)
      else if p.running
      then executed p none
      else if not x.has_pipe
      then executed (reset_status (begun p x) x.ended (some stdout_pipe)) (some stdout_pipe)
      else if not x.starts
      then executed (reset_status (begun p x) x.ended (some cmd_start)) (some cmd_start)
      else finish x (scan x.output_ends (begun p x) [] x.lines)
