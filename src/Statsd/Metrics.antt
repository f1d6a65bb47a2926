-- ===== src/Statsd/Metrics.antt =====
-- internal/statsd/metrics.go: from a metric in a packet to what is recorded.
use circonus_agent.Prelude.{
  ℕ, Bool, true, false, ◌||◌, Option, none, some, List, [], ◌∷◌, ◌++◌, ◌==◌, if◌then◌else◌,
}
use circonus_agent.Prelude.Int.{ℤ, pos}
use circonus_agent.Prelude.Bytes.{Bytes, codes, is_empty, equal, contains, split}
use circonus_agent.Prelude.Strconv.{parse_uint, parse_int}
use circonus_agent.Tags.{Tag, separator, from_list}
use circonus_agent.Statsd.Format.{Groups, match_metric}
use circonus_agent.Statsd.Destination.{Destination, get_metric_destination, host, group, ignore}

-- What the program needs of floats: the parser, with the bits; `1.0`; whether one is zero; and the two
-- roundings `int64(math.Round(float64(v)/rate))` and `int64(math.Round(1.0/rate))`.
pub record Lib : Type 1 where
  pub Float : Type 0
  pub parse_float : ℕ → Bytes → Option Float
  pub one : Float
  pub is_zero : Float → Bool
  pub scaled_count : ℕ → Float → ℤ
  pub inverse : Float → ℤ

-- The value of a gauge, by its type in Go.
pub data Gauge (Float : Type 0) : Type 0 where
  float64 : Float → Gauge Float
  int64 : ℤ → Gauge Float
  uint64 : ℕ → Gauge Float

-- The calls of the metrics library. `count_in_zero` is `RecordCountForValueWithTags` in the bin 0.
pub data Recording (Float : Type 0) : Type 0 where
  count_in_zero : ℤ → Recording Float
  count_for_value : Float → ℤ → Recording Float
  remove_histogram : Recording Float
  set_histogram_value : Float → Recording Float
  set_gauge : Gauge Float → Recording Float
  set_text : Bytes → Recording Float

pub data MetricError : Type 0 where
  invalid_format empty_part invalid_rate zero_rate invalid_destination : MetricError
  invalid_counter invalid_gauge invalid_histogram invalid_type : MetricError

-- Calls on the metrics of a destination, with the name and the tags; nothing for a blank line; an error;
-- or a panic.
pub data Outcome (Float : Type 0) : Type 0 where
  recorded : Destination → Bytes → List Tag → List (Recording Float) → Outcome Float
  blank : Outcome Float
  refused : MetricError → Outcome Float
  panics : Outcome Float

-- The fields of `Server` that are read, whether there are metrics for the host and for the group, and
-- whether gauges are histograms (both options of the cluster are set).
pub record Server : Type 0 where
  pub host_prefix : Bytes
  pub group_prefix : Bytes
  pub base_tags : List Bytes
  pub has_host : Bool
  pub has_group : Bool
  pub histogram_gauges : Bool

abbrev is_space : ℕ → Bool
is_space c = c == 9 || c == 10 || c == 12 || c == 13 || c == 32

-- `nameSpaceReplaceRx.ReplaceAllString(s, "_")`: one `_` for each run of spaces. The flag says whether
-- a run goes on.
unfoldable pub replace_spaces : Bool → Bytes → Bytes
replace_spaces within [] = []
replace_spaces within (c ∷ s) =
    let inside = replace_spaces true s in
    let outside = replace_spaces false s in
    if is_space c then (if within then inside else b'_' ∷ inside) else c ∷ outside

abbrev pub statsd_type : Bytes → Tag
statsd_type v = record { category = codes "statsd_type"; value = v }

abbrev pub has_metrics : Server → Destination → Bool
has_metrics s host = s.has_host
has_metrics s group = s.has_group
has_metrics s ignore = false

abbrev pub metric_tag_list : Bytes → List Bytes
metric_tag_list spec = if is_empty spec then [] else split separator spec

module _ (lib : Lib) where
  open lib use {Float, parse_float, one, is_zero, scaled_count, inverse}

  -- Where, under which name, with which tags. `dest` is a pointer: whether there are metrics behind it.
  pub record Target : Type 0 where
    pub dest : Destination
    pub is_there : Bool
    pub name : Bytes
    pub tags : List Tag

  -- A call on a nil pointer panics.
  abbrev pub record_in : Target → List Tag → List (Recording Float) → Outcome Float
  record_in t more rs = if t.is_there then recorded t.dest t.name (t.tags ++ more) rs else panics

  abbrev pub as_counter : Target → Float → Option ℕ → Outcome Float
  as_counter t rate none = refused invalid_counter
  as_counter t rate (some v) =
      record_in t (statsd_type (codes "count") ∷ []) (count_in_zero (scaled_count v rate) ∷ [])

  abbrev pub float_gauge : Option Float → Option (Gauge Float)
  float_gauge none = none
  float_gauge (some v) = some (float64 v)

  abbrev pub int_gauge : Option ℤ → Option (Gauge Float)
  int_gauge none = none
  int_gauge (some v) = some (int64 v)

  abbrev pub uint_gauge : Option ℕ → Option (Gauge Float)
  uint_gauge none = none
  uint_gauge (some v) = some (uint64 v)

  unfoldable pub gauge_value : Bytes → Option (Gauge Float)
  unfolding contains parse_int parse_uint
  gauge_value s =
      if contains s (codes ".")
      then float_gauge (parse_float 64 s)
      else if contains s (codes "-")
      then int_gauge (parse_int 64 s)
      else uint_gauge (parse_uint 64 s)

  -- `val.(float64)` panics for a value of another type.
  abbrev pub as_histogram_gauge : Target → Gauge Float → Outcome Float
  as_histogram_gauge t (float64 v) = record_in t [] (remove_histogram ∷ set_histogram_value v ∷ [])
  as_histogram_gauge t (int64 v) = panics
  as_histogram_gauge t (uint64 v) = panics

  abbrev pub as_gauge : Bool → Target → Option (Gauge Float) → Outcome Float
  as_gauge histogram_gauges t none = refused invalid_gauge
  as_gauge histogram_gauges t (some v) =
      if histogram_gauges
      then as_histogram_gauge t v
      else record_in t (statsd_type (codes "gauge") ∷ []) (set_gauge v ∷ [])

  abbrev pub as_histogram : Target → List Tag → Float → Option Float → Outcome Float
  as_histogram t more rate none = refused invalid_histogram
  as_histogram t more rate (some v) = record_in t more (count_for_value v (inverse rate) ∷ [])

  -- The switch over the type of a metric.
  unfoldable pub by_type : Bool → Target → Float → Bytes → Bytes → Outcome Float
  unfolding equal parse_uint gauge_value
  by_type histogram_gauges t rate kind value =
      if equal kind (codes "c")
      then as_counter t rate (parse_uint 64 value)
      else if equal kind (codes "g")
      then as_gauge histogram_gauges t (gauge_value value)
      else if equal kind (codes "h")
      then as_histogram t [] rate (parse_float 64 value)
      else if equal kind (codes "ms")
      then as_histogram t (statsd_type (codes "timing") ∷ []) rate (parse_float 64 value)
      else if equal kind (codes "s")
      then record_in t
          (record { category = codes "set_id"; value = value } ∷ statsd_type (codes "count") ∷ [])
          (count_in_zero (pos 1) ∷ [])
      else if equal kind (codes "t")
      then record_in t [] (set_text value ∷ [])
      else refused invalid_type

  abbrev pub to_destination : Server → Groups → Float → Destination × Bytes → Outcome Float
  to_destination s g rate (dest, name) =
      if has_metrics s dest
      then by_type s.histogram_gauges
          (record {
            dest = dest;
            is_there = has_metrics s dest;
            name = name;
            tags = from_list (s.base_tags ++ metric_tag_list g.tags);
          })
          rate g.kind g.value
      else refused invalid_destination

  abbrev pub routed : Server → Groups → Float → Outcome Float
  routed s g rate =
      to_destination s g rate
        (get_metric_destination s.host_prefix s.group_prefix (replace_spaces false g.name))

  abbrev pub sampled : Server → Groups → Option Float → Outcome Float
  sampled s g none = refused invalid_rate
  sampled s g (some rate) = if is_zero rate then refused zero_rate else routed s g rate

  abbrev pub matched : Server → Option Groups → Outcome Float
  matched s none = refused invalid_format
  matched s (some g) =
      if is_empty (replace_spaces false g.name) || is_empty g.value
      then refused empty_part
      else if is_empty g.sample
      then routed s g one
      else sampled s g (parse_float 32 g.sample)

  unfoldable pub parse_metric : Server → Bytes → Outcome Float
  unfolding match_metric replace_spaces get_metric_destination from_list split by_type
  parse_metric s [] = blank
  parse_metric s (c ∷ metric) = matched s (match_metric (c ∷ metric))

  -- A panic ends the program, and so the packet.
  abbrev pub then_lines : Outcome Float → List (Outcome Float) → List (Outcome Float)
  then_lines panics rest = panics ∷ []
  then_lines o rest = o ∷ rest

  unfoldable pub process_lines : Server → List Bytes → List (Outcome Float)
  unfolding parse_metric
  process_lines s [] = []
  process_lines s (l ∷ ls) = then_lines (parse_metric s l) (process_lines s ls)

  unfoldable pub process_packet : Server → Bytes → List (Outcome Float)
  unfolding process_lines split
  process_packet s [] = []
  process_packet s (c ∷ pkt) = process_lines s (split 10 (c ∷ pkt))
