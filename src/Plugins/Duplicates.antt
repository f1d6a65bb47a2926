-- ===== src/Plugins/Duplicates.antt =====
-- Lines of output that name the same metric.

use circonus_agent.Prelude.{
  ℕ, ◌≡◌, refl, ap, ◌∙◌, inl, inr, true, false, Option, none, some, List, [], ◌∷◌, ◌++◌, arith,
  Bool-cases, Option-cases,
}
use circonus_agent.Prelude.Bytes.{
  Bytes, codes, is_empty, equal, equal_exact, equal_refl, has_prefix, contains, split, has_byte,
}
use circonus_agent.Prelude.Strconv.{lookup, assign, lookup-assign}
use circonus_agent.Tags.{
  separator, stream_open, from_list, clean_category, encode_metric_stream_tags,
  metric_name_with_stream_tags,
}
use circonus_agent.Plugins.Output.{
  field_delimiter, null_metric_value, Lib, underscored, is_metric_type, Value, Metric, Metrics,
  of_kind, with_kind, typed_value, named, assign_some, parse_value, checked, parse_fields,
  parse_line, parse_lines,
}
use circonus_agent.Tags.Streaming.{encode_metric_stream_tags-cons}
use circonus_agent.Tags.Parsing.{contains_tagged}

-- A text with no tab in front of one is the first field.
split_field :
    (sep : ℕ) (a rest : Bytes)
    → has_byte sep a ≡ false
    → split sep (a ++ (sep ∷ rest)) ≡ a ∷ split sep rest
unfolding split has_byte
split_field sep [] rest n = ground arith
split_field sep (c ∷ a) rest n = ground (arith, split_field sep a rest)

split_last : (sep : ℕ) (a : Bytes) → has_byte sep a ≡ false → split sep a ≡ a ∷ []
unfolding split has_byte
split_last sep [] n = refl
split_last sep (c ∷ a) n = ground (arith, split_last sep a)

-- The three fields of a line.
abbrev pub line_of : Bytes → Bytes → Bytes → Bytes
line_of name kind s = name ++ (field_delimiter ∷ (kind ++ (field_delimiter ∷ s)))

split-line_of :
    (name kind s : Bytes)
    → has_byte field_delimiter name ≡ false
    → has_byte field_delimiter kind ≡ false
    → has_byte field_delimiter s ≡ false
    → split field_delimiter (line_of name kind s) ≡ name ∷ kind ∷ s ∷ []
split-line_of name kind s n k v =
    split_field field_delimiter name (kind ++ (field_delimiter ∷ s)) n
    ∙ ap (◌∷◌ name)
        (split_field field_delimiter kind s k ∙ ap (◌∷◌ kind) (split_last field_delimiter s v))

module _ (lib : Lib) where
  -- Every metric that stands under a name has stream tags in it.
  abbrev AllTagged : Metrics lib → Type 0
  AllTagged m = (k : Bytes) → contains k stream_open ≡ false → lookup k m ≡ none

  assign-AllTagged :
      (k : Bytes) (x : Metric lib.Float lib.Json) (m : Metrics lib)
      → contains k stream_open ≡ true
      → AllTagged m
      → AllTagged (assign k x m)
  assign-AllTagged k x m t h j n =
      rw (lookup-assign k j x m) (ground (arith, h j n, equal_exact k j))

  abbrev pub source_tag : Bytes
  source_tag = codes "source:circonus-agent"

  -- The text functions leave the category of the first base tag alone, as they do with lower-case letters.
  abbrev pub KeepsSource : Type 0
  KeepsSource = lib.remove_spaces (lib.to_lower (codes "source")) ≡ codes "source"

  module _ (keeps : KeepsSource) (more : List Bytes) where
    source_category :
        is_empty (clean_category lib.to_lower lib.remove_spaces (codes "source")) ≡ false
    unfolding has_prefix
    source_category = rw keeps

    contains-named :
        (name : Bytes) (tags : List Bytes)
        → contains (named lib name (source_tag ∷ tags)) stream_open ≡ true
    unfolding metric_name_with_stream_tags from_list
    contains-named name tags = elim (Bool-cases (contains name stream_open)) [
      | inl tagged ↦ rw tagged tagged
      | inr plain ↦
          rw
            (
              plain,
              encode_metric_stream_tags-cons lib.to_lower lib.remove_spaces
                  (record { category = codes "source"; value = codes "circonus-agent" })
                  (from_list tags) source_category refl,
            )
            (contains_tagged name (
              encode_metric_stream_tags lib.to_lower lib.remove_spaces (
                record { category = codes "source"; value = codes "circonus-agent" }
                ∷ from_list tags)))
    ]

    assign_some-AllTagged :
        (name : Bytes) (tags : List Bytes) (o : Option (Metric lib.Float lib.Json))
        (m : Metrics lib)
        → AllTagged m
        → AllTagged (assign_some lib (named lib name (source_tag ∷ tags)) o m)
    assign_some-AllTagged name tags none m h = h
    assign_some-AllTagged name tags (some x) m h =
        assign-AllTagged (named lib name (source_tag ∷ tags)) x m (contains-named name tags) h

    parse_value-AllTagged :
        (name kind s : Bytes) (tags : List Bytes) (m : Metrics lib)
        → AllTagged m
        → AllTagged (parse_value lib name kind s (source_tag ∷ tags) m)
    parse_value-AllTagged name kind s tags m h =
        elim (Bool-cases (equal (lib.to_lower s) null_metric_value)) [
          | inl null ↦ rw null (
              assign-AllTagged (named lib name (source_tag ∷ tags)) _ m (contains-named name tags)
                h)
          | inr given ↦
              rw given
                (assign_some-AllTagged name tags (with_kind lib kind (typed_value lib kind s)) m h)
        ]

    checked-AllTagged :
        (name kind : Bytes) (taken m : Metrics lib)
        → AllTagged m
        → AllTagged taken
        → AllTagged (checked lib name kind taken m)
    checked-AllTagged name kind taken m h t = elim (Option-cases (lookup name m)) [
      | inr (x, e) ↦ rw (e, checked) h
      | inl e ↦
          rw (e, checked)
            (elim (Bool-cases (is_metric_type kind)) [
              | inl known ↦ rw known t
              | inr unknown ↦ rw unknown h
            ])
    ]

    parse_fields-AllTagged :
        (fields : List Bytes) (m : Metrics lib)
        → AllTagged m
        → AllTagged (parse_fields lib (source_tag ∷ more) fields m)
    parse_fields-AllTagged (name ∷ kind ∷ []) m h =
        checked-AllTagged (underscored name) (lib.trim_space kind) _ m h (
          assign-AllTagged (named lib (underscored name) (source_tag ∷ more)) _ m
            (contains-named (underscored name) more) h)
    parse_fields-AllTagged (name ∷ kind ∷ s ∷ []) m h =
        checked-AllTagged (underscored name) (lib.trim_space kind) _ m h
          (parse_value-AllTagged (underscored name) (lib.trim_space kind) s more m h)
    parse_fields-AllTagged (name ∷ kind ∷ s ∷ tags ∷ []) m h =
        checked-AllTagged (underscored name) (lib.trim_space kind) _ m h (
          parse_value-AllTagged (underscored name) (lib.trim_space kind) s
            (more ++ split separator tags) m h)
    parse_fields-AllTagged [] m h = h
    parse_fields-AllTagged (a ∷ []) m h = h
    parse_fields-AllTagged (a ∷ b ∷ c ∷ d ∷ e ∷ f) m h = h

    parse_lines-AllTagged :
        (lines : List Bytes) (m : Metrics lib)
        → AllTagged m
        → AllTagged (parse_lines lib (source_tag ∷ more) lines m)
    unfolding parse_lines parse_line
    parse_lines-AllTagged [] m h = h
    parse_lines-AllTagged (line ∷ lines) m h =
        parse_lines-AllTagged lines _ (parse_fields-AllTagged (split field_delimiter line) m h)

    parse_lines-append :
        (ls : List Bytes) (line : Bytes) (m : Metrics lib)
        → parse_lines lib (source_tag ∷ more) (ls ++ (line ∷ [])) m
          ≡ parse_line lib (source_tag ∷ more) line (parse_lines lib (source_tag ∷ more) ls m)
    unfolding parse_lines
    parse_lines-append [] line m = refl
    parse_lines-append (l ∷ ls) line m = parse_lines-append ls line _

    -- A line of three fields whose name carries no stream tags is not passed over as a duplicate: its value
    -- stands under the tagged name after it was read, also where lines before it have given the same name.
    pub parse_lines_last_wins :
        (ls : List Bytes) (name kind s : Bytes) (v : Value lib.Float lib.Json)
        → has_byte field_delimiter name ≡ false
        → has_byte field_delimiter kind ≡ false
        → has_byte field_delimiter s ≡ false
        → contains (underscored name) stream_open ≡ false
        → is_metric_type (lib.trim_space kind) ≡ true
        → equal (lib.to_lower s) null_metric_value ≡ false
        → typed_value lib (lib.trim_space kind) s ≡ some v
        → lookup
            (named lib (underscored name) (source_tag ∷ more))
            (parse_lines lib (source_tag ∷ more) (ls ++ (line_of name kind s ∷ [])) [])
          ≡ some (of_kind lib (lib.trim_space kind) v)
    parse_lines_last_wins ls name kind s v tn tk ts plain known given e =
        rw (parse_lines-append ls (line_of name kind s) []) (
          unfold parse_line in
          rw
            (
              split-line_of name kind s tn tk ts,
              parse_lines-AllTagged ls [] (λ k n. unfold lookup in refl) (underscored name) plain,
              checked,
            )
            (rw (known, given, e)
              (rw (
                lookup-assign (named lib (underscored name) (source_tag ∷ more))
                    (named lib (underscored name) (source_tag ∷ more))
                    (of_kind lib (lib.trim_space kind) v)
                    (parse_lines lib (source_tag ∷ more) ls []),
                equal_refl (named lib (underscored name) (source_tag ∷ more)),
              ))))
