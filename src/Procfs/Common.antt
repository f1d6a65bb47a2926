-- ===== src/Procfs/Common.antt =====
-- internal/builtins/collector/linux/procfs/collector.go: what the collectors have in common.
use circonus_agent.Prelude.{
  ℕ, ◌-◌, Bool, true, false, ◌&&◌, ◌||◌, Option, none, some, List, [], ◌∷◌, ◌++◌, ltb, leb, ◌==◌,
  if◌then◌else◌,
}
use circonus_agent.Prelude.Bytes.{Bytes, codes, is_empty}
use circonus_agent.Prelude.Strconv.{assign}
use circonus_agent.Tags.{Tag, metric_name_with_stream_tags}
use circonus_agent.Plugins.Output.{Lib, Value, Metrics, of_kind}

pub data CollectError : Type 0 where
  ttl_not_expired already_running read_error cancelled : CollectError
  parse_error : Bytes → CollectError

pub data InvalidMetric : Type 0 where
  no_name no_type : InvalidMetric

abbrev pub is_ascii_space : ℕ → Bool
is_ascii_space c = c == b' ' || (leb 9 c && leb c 13)

abbrev pub word_onto : Bytes → List Bytes → List Bytes
word_onto [] words = words
word_onto (c ∷ s) words = (c ∷ s) ∷ words

-- The word that a text begins with, which is empty if it begins with a space, and the words after it.
unfoldable pub split_words : Bytes → Bytes × List Bytes
split_words [] = ([], [])
split_words (c ∷ s) =
    let r = split_words s in if is_ascii_space c then ([], word_onto r.0 r.1) else (c ∷ r.0, r.1)

-- `strings.Fields` of a text in ASCII, as the files of procfs are.
unfoldable pub fields : Bytes → List Bytes
unfolding split_words
fields s = word_onto (split_words s).0 (split_words s).1

module _ (lib : Lib) where
  -- Times and durations are in nanoseconds, the zero time is 0.
  pub record Common : Type 0 where
    pub id : Bytes
    pub base_tags : List Tag
    pub last_error : Option CollectError
    pub last_end : ℕ
    pub last_metrics : Option (Metrics lib)
    pub last_start : ℕ
    pub last_run_duration : ℕ
    pub run_ttl : ℕ
    pub running : Bool

  unfoldable pub new_common : Bytes → List Tag → Common
  new_common id base_tags = record {
    id = id;
    base_tags = base_tags;
    last_error = none;
    last_end = 0;
    last_metrics = none;
    last_start = 0;
    last_run_duration = 0;
    run_ttl = 0;
    running = false;
  }

  abbrev pub or_no_metrics : Option (Metrics lib) → Metrics lib
  or_no_metrics none = []
  or_no_metrics (some m) = m

  -- `Flush`: it gives the last metrics out and keeps them.
  unfoldable pub flush_common : Common → Metrics lib × Common
  flush_common c = (
    or_no_metrics c.last_metrics,
    record c { last_metrics = some (or_no_metrics c.last_metrics) },
  )

  -- The guards at the start of `Collect`.
  unfoldable pub begin_collect : ℕ → Common → Option CollectError × Common
  begin_collect now c =
      if ltb 0 c.run_ttl && ltb (now - c.last_end) c.run_ttl
      then (some ttl_not_expired, c)
      else if c.running
      then (some already_running, c)
      else (none, record c { running = true; last_start = now })

  abbrev pub duration_to : ℕ → Common → ℕ
  duration_to now c = if c.last_start == 0 then c.last_run_duration else now - c.last_start

  -- `setStatus`; an error takes the metrics away.
  unfoldable pub set_status : ℕ → Metrics lib → Option CollectError → Common → Common
  set_status now metrics none c = record c {
    last_error = none;
    last_metrics = some metrics;
    last_end = now;
    last_run_duration = duration_to now c;
    running = false;
  }
  set_status now metrics (some e) c = record c {
    last_error = some e;
    last_metrics = some [];
    last_end = now;
    last_run_duration = duration_to now c;
    running = false;
  }

  abbrev pub source_tags : Common → List Tag
  source_tags c =
      record { category = codes "source"; value = codes "circonus-agent" }
      ∷ record { category = codes "collector"; value = c.id }
      ∷ []

  abbrev pub prefixed : Bytes → Bytes → Bytes
  prefixed [] name = name
  prefixed (p ∷ prefix) name = (p ∷ prefix) ++ (codes "`" ++ name)

  abbrev pub metric_name : Common → Bytes → Bytes → List Tag → Bytes
  metric_name c prefix name tags =
      metric_name_with_stream_tags lib.to_lower lib.remove_spaces (prefixed prefix name)
        (c.base_tags ++ (source_tags c ++ tags))

  -- `addMetric`, to metrics that are there.
  unfoldable pub add_metric :
      Common
      → Bytes
      → Bytes
      → Bytes
      → Value lib.Float lib.Json
      → List Tag
      → Metrics lib
      → Option InvalidMetric × Metrics lib
  unfolding assign metric_name_with_stream_tags
  add_metric c prefix name kind value tags metrics =
      if is_empty name
      then (some no_name, metrics)
      else if is_empty kind
      then (some no_type, metrics)
      else (none, assign (metric_name c prefix name tags) (of_kind lib kind value) metrics)

  -- The error is not looked at.
  abbrev pub added :
      Common → Bytes → Bytes → Value lib.Float lib.Json → List Tag → Metrics lib → Metrics lib
  added c name kind value tags metrics = (add_metric c [] name kind value tags metrics).1

abbrev pub units : Bytes → Tag
units u = record { category = codes "units"; value = u }
