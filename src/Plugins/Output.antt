-- ===== src/Plugins/Output.antt =====
-- internal/plugins/plugin.go, the part that reads a plugin's output, and the types of plugins.go.
use circonus_agent.Prelude.{
  ℕ, Bool, false, ◌||◌, Option, none, some, List, [], ◌∷◌, ◌++◌, ◌==◌, if◌then◌else◌,
}
use circonus_agent.Prelude.Int.{ℤ}
use circonus_agent.Prelude.Bytes.{Bytes, codes, equal, split}
use circonus_agent.Prelude.Strconv.{parse_uint, parse_int, lookup, assign}
use circonus_agent.Tags.{separator, from_list, metric_name_with_stream_tags}

abbrev pub field_delimiter : ℕ
field_delimiter = 9

abbrev pub null_metric_value : Bytes
null_metric_value = codes "[[null]]"

-- What the program needs of the Unicode tables of `strings`, of floats and of JSON.
pub record Lib : Type 1 where
  pub Float : Type 0
  pub Json : Type 0
  pub to_lower : Bytes → Bytes
  pub remove_spaces : Bytes → Bytes
  pub trim_space : Bytes → Bytes
  pub parse_float : Bytes → Option Float
  -- The metrics of a JSON object, in the order in which a loop over the map visits them: the name, the
  -- type, the tags and the value of each.
  pub decode : Bytes → Option (List (Bytes × Bytes × List Bytes × Json))

-- `strings.ReplaceAll(s, " ", "_")`.
unfoldable pub underscored : Bytes → Bytes
underscored [] = []
underscored (c ∷ s) = (if c == b' ' then b'_' else c) ∷ underscored s

-- The regular expression `^[iIlLnOs]$`.
abbrev is_type_byte : ℕ → Bool
is_type_byte c =
    c == b'i' || c == b'I' || c == b'l' || c == b'L' || c == b'n' || c == b'O' || c == b's'

abbrev pub is_metric_type : Bytes → Bool
is_metric_type [] = false
is_metric_type (c ∷ []) = is_type_byte c
is_metric_type (c ∷ d ∷ s) = false

-- The value of a `cgm.Metric`, by its type in Go.
pub data Value (Float Json : Type 0) : Type 0 where
  int32 int64 : ℤ → Value Float Json
  uint32 uint64 : ℕ → Value Float Json
  float64 : Float → Value Float Json
  text : Bytes → Value Float Json
  json : Json → Value Float Json

pub record Metric (Float Json : Type 0) : Type 0 where
  pub kind : Bytes
  pub value : Value Float Json

module _ (lib : Lib) where
  open lib use {Float, Json, to_lower, remove_spaces, trim_space, parse_float, decode}

  abbrev pub Metrics : Type 0
  Metrics = List (Bytes × Metric Float Json)

  abbrev pub of_kind : Bytes → Value Float Json → Metric Float Json
  of_kind kind value = record { kind = kind; value = value }

  abbrev pub with_kind : Bytes → Option (Value Float Json) → Option (Metric Float Json)
  with_kind kind none = none
  with_kind kind (some v) = some (of_kind kind v)

  abbrev ints : (ℤ → Value Float Json) → Option ℤ → Option (Value Float Json)
  ints f none = none
  ints f (some n) = some (f n)

  abbrev nats : (ℕ → Value Float Json) → Option ℕ → Option (Value Float Json)
  nats f none = none
  nats f (some n) = some (f n)

  abbrev floats : Option Float → Option (Value Float Json)
  floats none = none
  floats (some x) = some (float64 x)

  -- The switch over the type of a metric; `none` where the line is passed over.
  unfoldable pub typed_value : Bytes → Bytes → Option (Value Float Json)
  unfolding equal parse_int parse_uint
  typed_value kind s =
      if equal kind (codes "i")
      then ints int32 (parse_int 32 s)
      else if equal kind (codes "I")
      then nats uint32 (parse_uint 32 s)
      else if equal kind (codes "l")
      then ints int64 (parse_int 64 s)
      else if equal kind (codes "L")
      then nats uint64 (parse_uint 64 s)
      else if equal kind (codes "n")
      then floats (parse_float s)
      else if equal kind (codes "s") || equal kind (codes "O")
      then some (text s)
      else none

  abbrev pub named : Bytes → List Bytes → Bytes
  named name tags = metric_name_with_stream_tags to_lower remove_spaces name (from_list tags)

  abbrev pub assign_some : Bytes → Option (Metric Float Json) → Metrics → Metrics
  assign_some name none m = m
  assign_some name (some x) m = assign name x m

  -- A line with a value, its tags put together.
  abbrev pub parse_value : Bytes → Bytes → Bytes → List Bytes → Metrics → Metrics
  parse_value name kind s tags m =
      if equal (to_lower s) null_metric_value
      then assign (named name tags) (of_kind kind (text null_metric_value)) m
      else assign_some (named name tags) (with_kind kind (typed_value kind s)) m

  -- The checks on the name and the type, before a line is taken.
  abbrev pub checked : Bytes → Bytes → Metrics → Metrics → Metrics
  checked name kind taken m = elim (lookup name m) [
    | some _ ↦ m
    | none ↦ if is_metric_type kind then taken else m
  ]

  abbrev pub parse_fields : List Bytes → List Bytes → Metrics → Metrics
  parse_fields base (name ∷ kind ∷ []) m =
      checked (underscored name) (trim_space kind)
        (assign (named (underscored name) base) (of_kind (trim_space kind) (text null_metric_value))
          m)
        m
  parse_fields base (name ∷ kind ∷ s ∷ []) m =
      checked (underscored name) (trim_space kind)
        (parse_value (underscored name) (trim_space kind) s base m) m
  parse_fields base (name ∷ kind ∷ s ∷ tags ∷ []) m =
      checked (underscored name) (trim_space kind)
        (parse_value (underscored name) (trim_space kind) s (base ++ split separator tags) m) m
  parse_fields base _ m = m

  unfoldable pub parse_line : List Bytes → Bytes → Metrics → Metrics
  unfolding split underscored lookup assign typed_value
  parse_line base line m = parse_fields base (split field_delimiter line) m

  unfoldable pub parse_lines : List Bytes → List Bytes → Metrics → Metrics
  parse_lines base [] m = m
  parse_lines base (line ∷ lines) m = parse_lines base lines (parse_line base line m)

  -- The loop over the metrics of a JSON object.
  unfoldable pub parse_json :
      List Bytes → List (Bytes × Bytes × List Bytes × Json) → Metrics → Metrics
  unfolding assign
  parse_json base [] m = m
  parse_json base ((name, kind, tags, value) ∷ rest) m =
      parse_json base rest (assign (named name (base ++ tags)) (of_kind kind (json value)) m)
