-- ===== src/Plugins/Repeated.antt =====
-- internal/plugins/plugin.go, parsePluginOutput: output in which a metric's name is repeated.
use circonus_agent.Prelude.{
  ◌≡◌, refl, inl, inr, Bool, true, false, not, none, some, List, [], ◌∷◌, ◌++◌, arith, ◌==◌,
  Bool-cases,
}
use circonus_agent.Prelude.Bytes.{Bytes, equal, contains, has_byte}
use circonus_agent.Prelude.Strconv.{lookup}
use circonus_agent.Plugins.Output.{
  field_delimiter, null_metric_value, Lib, underscored, is_metric_type, Value, Metric, Metrics,
  of_kind, typed_value, named, parse_lines,
}
use circonus_agent.Plugins.Run.{Plugin, base_tag_list, Parsed, parse_plugin_output, parsed}
use circonus_agent.Plugins.Duplicates.{line_of, KeepsSource, parse_lines_last_wins}
use circonus_agent.Tags.{stream_open}

-- Output that is read line by line: its first line is not blank and opens no JSON object.
abbrev pub opens_text : List Bytes → Bool
opens_text [] = false
opens_text ([] ∷ lines) = false
opens_text ((c ∷ line) ∷ lines) = not (c == b'{')

module _ (lib : Lib) where
  parse_plugin_output-text :
      (p : Plugin lib) (lines : List Bytes)
      → opens_text lines ≡ true
      → parse_plugin_output lib p lines
        ≡ parsed (record p { metrics = some (parse_lines lib (base_tag_list lib p) lines []) }) none
  unfolding parse_plugin_output
  parse_plugin_output-text p [] h = absurd (ground arith)
  parse_plugin_output-text p ([] ∷ lines) h = absurd (ground arith)
  parse_plugin_output-text p ((c ∷ line) ∷ lines) h = elim (Bool-cases (c == b'{')) [
    | inl brace ↦ absurd (ground arith)
    | inr tabs ↦ rw tabs refl
  ]

  -- What holds of a line's fields: none has a tab in it; the name carries no stream tags; the type is
  -- known; and the text is not the null value, and is a value of that type.
  abbrev pub IsValueLine : Bytes → Bytes → Bytes → Value lib.Float lib.Json → Type 0
  IsValueLine name kind s v =
      (has_byte field_delimiter name ≡ false)
      × (has_byte field_delimiter kind ≡ false)
      × (has_byte field_delimiter s ≡ false)
      × (contains (underscored name) stream_open ≡ false)
      × (is_metric_type (lib.trim_space kind) ≡ true)
      × (equal (lib.to_lower s) null_metric_value ≡ false)
      × (typed_value lib (lib.trim_space kind) s ≡ some v)

  -- What the parser has left: the plugin with metrics, of which one stands under that name.
  abbrev pub HoldsMetric : Plugin lib → Bytes → Metric lib.Float lib.Json → Parsed lib → Type 0
  HoldsMetric p name x r =
      (m : Metrics lib) × (r ≡ parsed (record p { metrics = some m }) none)
      × (lookup name m ≡ some x)

  -- The bug: in output that is read line by line (its first line is not blank and does not start with
  -- `{`), the last line is never passed over as a duplicate, whatever the lines before it are, also where
  -- these have given the same name. This is for a last line of three fields without tabs, with a known
  -- type, a value of this type other than the null value, and a name without stream tags: its value stands
  -- under the name tagged with the plugin's base tags at the end. (`strings.ToLower` and the removal of
  -- spaces are to leave the word `source` as it is.)
  pub parse_plugin_output_last_wins :
      (p : Plugin lib) (ls : List Bytes) (name kind s : Bytes) (v : Value lib.Float lib.Json)
      → KeepsSource lib
      → opens_text (ls ++ (line_of name kind s ∷ [])) ≡ true
      → IsValueLine name kind s v
      → HoldsMetric p
          (named lib (underscored name) (base_tag_list lib p))
          (of_kind lib (lib.trim_space kind) v)
          (parse_plugin_output lib p (ls ++ (line_of name kind s ∷ [])))
  unfolding base_tag_list
  parse_plugin_output_last_wins p ls name kind s v keeps opens h = (
    parse_lines lib (base_tag_list lib p) (ls ++ (line_of name kind s ∷ [])) [],
    parse_plugin_output-text p (ls ++ (line_of name kind s ∷ [])) opens,
    parse_lines_last_wins lib keeps _ ls name kind s v h.0 h.1 h.2 h.3 h.4 h.5 h.6,
  )
