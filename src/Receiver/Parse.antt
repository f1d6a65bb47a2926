-- ===== src/Receiver/Parse.antt =====
-- internal/server/receiver/receiver.go: from the metrics of a request to what is recorded.
use circonus_agent.Prelude.{ℕ, Bool, Option, none, some, List, [], ◌∷◌, ◌++◌, map, if◌then◌else◌}
use circonus_agent.Prelude.Int.{ℤ}
use circonus_agent.Prelude.Bytes.{Bytes, codes, equal, contains}
use circonus_agent.Prelude.Strconv.{parse_uint, parse_int}
use circonus_agent.Tags.{Tag, from_list, merge_tags}
use circonus_agent.Receiver.Samples.{
  Item, Value, HistSample, Lib, parse_histogram, number, text, items,
}

-- The number of a gauge, by its type in Go.
pub data Number (Float : Type 0) : Type 0 where
  int32 int64 : ℤ → Number Float
  uint32 uint64 : ℕ → Number Float
  float64 : Float → Number Float

-- The calls of the metrics library, each with the name and the tags of a metric.
pub data Recording (Float : Type 0) : Type 0 where
  gauge : Number Float → Recording Float
  count_for_value : Float → ℤ → Recording Float
  single_value : Float → Recording Float
  set_text : Bytes → Recording Float

pub record Call (Float : Type 0) : Type 0 where
  pub name : Bytes
  pub tags : List Tag
  pub recording : Recording Float

-- `tags.JSONMetric` with its name.
pub record JsonMetric (Float Rest : Type 0) : Type 0 where
  pub name : Bytes
  pub kind : Bytes
  pub tags : List Bytes
  pub value : Value Float Rest

abbrev pub write_tags : List Bytes
write_tags = codes "source:circonus-agent" ∷ codes "collector:write" ∷ []

-- `initCGM`, over `baseTags` once there are metrics, and `none` before: whether the metrics library can
-- be set up, and what `tags.GetBaseTags` gives. The result is `none` for an error.
unfoldable pub init_cgm : Bool → List Bytes → Option (List Bytes) → Option (List Bytes)
init_cgm sets_up configured (some base) = some base
init_cgm sets_up configured none = if sets_up then some (configured ++ write_tags) else none

abbrev pub tag_list : List Bytes → Bytes → List Bytes → List Bytes
tag_list base id metric_tags = base ++ (metric_tags ++ ((codes "collector_id:" ++ id) ∷ []))

module _ (lib : Lib) where
  open lib use {Float, Rest, to_lower, remove_spaces, parse_float}
  open lib use {to_int32, to_uint32, to_int64, to_uint64, print}

  unfoldable pub parse_int32 : Value Float Rest → Option ℤ
  unfolding parse_int
  parse_int32 (number x) = some (to_int32 x)
  parse_int32 (text s) = parse_int 32 s
  parse_int32 _ = none

  unfoldable pub parse_uint32 : Value Float Rest → Option ℕ
  unfolding parse_uint
  parse_uint32 (number x) = some (to_uint32 x)
  parse_uint32 (text s) = parse_uint 32 s
  parse_uint32 _ = none

  unfoldable pub parse_int64 : Value Float Rest → Option ℤ
  unfolding parse_int
  parse_int64 (number x) = some (to_int64 x)
  parse_int64 (text s) = parse_int 64 s
  parse_int64 _ = none

  unfoldable pub parse_uint64 : Value Float Rest → Option ℕ
  unfolding parse_uint
  parse_uint64 (number x) = some (to_uint64 x)
  parse_uint64 (text s) = parse_uint 64 s
  parse_uint64 _ = none

  unfoldable pub parse_float64 : Value Float Rest → Option Float
  parse_float64 (number x) = some x
  parse_float64 (text s) = parse_float s
  parse_float64 _ = none

  abbrev pub gauge_of : {A : Type 0} → (A → Number Float) → Option A → List (Recording Float)
  gauge_of f none = []
  gauge_of f (some v) = gauge (f v) ∷ []

  -- A text as the value of a histogram is taken for a list of one text.
  abbrev pub listed : Value Float Rest → Value Float Rest
  listed (text s) = items (Item.text s ∷ [])
  listed v = v

  abbrev pub sample_recording : HistSample Float → Recording Float
  sample_recording s = if s.bucket then count_for_value s.value s.count else single_value s.value

  abbrev pub sample_recordings : Option (List (HistSample Float)) → List (Recording Float)
  sample_recordings none = []
  sample_recordings (some ss) = map sample_recording ss

  -- The switch over the type of a metric.
  unfoldable pub recordings : Bytes → Value Float Rest → List (Recording Float)
  unfolding equal parse_int32 parse_uint32 parse_int64 parse_uint64 parse_float64 parse_histogram
  recordings kind v =
      if equal kind (codes "i")
      then gauge_of int32 (parse_int32 v)
      else if equal kind (codes "I")
      then gauge_of uint32 (parse_uint32 v)
      else if equal kind (codes "l")
      then gauge_of int64 (parse_int64 v)
      else if equal kind (codes "L")
      then gauge_of uint64 (parse_uint64 v)
      else if equal kind (codes "h")
      then sample_recordings (parse_histogram lib (listed v))
      else if equal kind (codes "n")
      then gauge_of float64 (parse_float64 v)
      else if equal kind (codes "s")
      then set_text (print v) ∷ []
      else []

  -- Stream tags in the name are merged with the list of tags.
  abbrev pub merged_name : Bytes → List Bytes → Bytes
  merged_name name ts =
      if contains name (codes "|ST") then merge_tags to_lower remove_spaces name ts else name

  abbrev pub call_of : Bytes → List Tag → Recording Float → Call Float
  call_of name ts r = record { name = name; tags = ts; recording = r }

  -- The body of the loop of `Parse`.
  unfoldable pub metric_calls : List Bytes → Bytes → JsonMetric Float Rest → List (Call Float)
  unfolding contains merge_tags from_list recordings
  metric_calls base id m =
      map
        (call_of (merged_name m.name (tag_list base id m.tags))
          (from_list (tag_list base id m.tags)))
        (recordings m.kind m.value)

  -- The loop, over the metrics in the order in which it visits the map.
  unfoldable pub all_calls : List Bytes → Bytes → List (JsonMetric Float Rest) → List (Call Float)
  unfolding metric_calls
  all_calls base id [] = []
  all_calls base id (m ∷ ms) = metric_calls base id m ++ all_calls base id ms

  pub data Parsed : Type 0 where
    recorded : List (Call Float) → Parsed
    no_metrics no_json : Parsed

  abbrev pub parse_with :
      Bytes → Option (List (JsonMetric Float Rest)) → Option (List Bytes) → Parsed
  parse_with id decoded none = no_metrics
  parse_with id none (some base) = no_json
  parse_with id (some ms) (some base) = recorded (all_calls base id ms)

  -- `Parse`: `decoded` is the metrics that the decoder of JSON makes of the data, if it can.
  unfoldable pub parse :
      Bool
      → List Bytes
      → Option (List Bytes)
      → Bytes
      → Option (List (JsonMetric Float Rest))
      → Parsed × Option (List Bytes)
  unfolding init_cgm all_calls
  parse sets_up configured base id decoded =
      (parse_with id decoded (init_cgm sets_up configured base), init_cgm sets_up configured base)
