-- ===== src/Server/Export.antt =====
-- internal/server/handlers.go: metrics in the format of prometheus.
use circonus_agent.Prelude.{
  ℕ, ◌^◌, ◌<◌, ◌≡◌, Bool, ◌||◌, Option, none, some, List, [], ◌∷◌, ◌++◌, arith, ltb, if◌then◌else◌,
  lt→ltb,
}
use circonus_agent.Prelude.Int.{ℤ}
use circonus_agent.Prelude.Bytes.{Bytes, codes, equal, contains}
use circonus_agent.Prelude.Strconv.{parse_int}
use circonus_agent.Prelude.Decimal.{show_nat, show_int, parse_int-show_nat}
use circonus_agent.Plugins.Output.{
  Lib, Value, Metric, Metrics, int32, int64, uint32, uint64, float64, text, json,
}

-- What `fmt` makes of floats (by `%v` and `%f`) and of values of JSON.
pub record Printer (lib : Lib) : Type 0 where
  pub print_float : lib.Float → Bytes
  pub print_fixed : lib.Float → Bytes
  pub print_json : lib.Json → Bytes

module _ (lib : Lib) (out : Printer lib) where
  open lib use {Float, Json, parse_float}
  open out use {print_float, print_fixed, print_json}

  -- `fmt.Sprintf("%v", metric.Value)`.
  abbrev pub print_value : Value Float Json → Bytes
  print_value (int32 n) = show_int n
  print_value (int64 n) = show_int n
  print_value (uint32 n) = show_nat n
  print_value (uint64 n) = show_nat n
  print_value (float64 x) = print_float x
  print_value (text s) = s
  print_value (json v) = print_json v

  abbrev pub is_whole_type : Bytes → Bool
  is_whole_type kind =
      equal kind (codes "i")
      || equal kind (codes "I")
      || equal kind (codes "l")
      || equal kind (codes "L")

  abbrev pub line_with : Bytes → Bytes → ℕ → Bytes
  line_with name v now = name ++ (codes " " ++ (v ++ (codes " " ++ (show_nat now ++ (10 ∷ [])))))

  abbrev pub int_line : Bytes → ℕ → Option ℤ → Option Bytes
  int_line name now none = none
  int_line name now (some v) = some (line_with name (show_int v) now)

  abbrev pub float_line : Bytes → ℕ → Option Float → Option Bytes
  float_line name now none = none
  float_line name now (some x) = some (line_with name (print_fixed x) now)

  -- `metricsToPromFormat` of one metric; `none` where nothing is written.
  unfoldable pub metric_line : Bytes → ℕ → Metric Float Json → Option Bytes
  unfolding equal contains parse_int show_nat show_int
  metric_line name now m =
      if is_whole_type m.kind
      then int_line name now (parse_int 64 (print_value m.value))
      else if equal m.kind (codes "n")
      then if contains (print_value m.value) (codes "[H[")
        then none
        else float_line name now (parse_float (print_value m.value))
      else none

  abbrev pub line_onto : Option Bytes → List Bytes → List Bytes
  line_onto none lines = lines
  line_onto (some l) lines = l ∷ lines

  unfoldable pub metric_lines : ℕ → Metrics lib → List Bytes
  unfolding metric_line
  metric_lines now [] = []
  metric_lines now ((name, m) ∷ ms) = line_onto (metric_line name now m) (metric_lines now ms)

  -- An unsigned number of a metric of type `L` is exported exactly if it is less than 2 ^ 63; a larger one
  -- is left out, though it is a number of that type.
  pub metric_line_unsigned :
      (name : Bytes) (now n : ℕ)
      → n < 2 ^ 64
      → metric_line name now (record { kind = codes "L"; value = uint64 n })
        ≡ (if ltb n (2 ^ 63) then some (line_with name (show_nat n) now) else none)
  metric_line_unsigned name now n h =
      unfold metric_line equal in rw (parse_int-show_nat 64 n, lt→ltb n (2 ^ 64) h) (ground arith)
