-- ===== src/Statsd/Tagging.antt =====
-- The tags of what the listener records.
use circonus_agent.Prelude.{
  ℕ, ◌≡◌, refl, inl, inr, Bool, true, false, ◌||◌, Option, none, some, List, [], ◌∷◌, arith,
  Bool-cases,
}
use circonus_agent.Prelude.Int.{pos}
use circonus_agent.Prelude.Bytes.{Bytes, codes, is_empty}
use circonus_agent.Prelude.Strconv.{parse_uint}
use circonus_agent.Tags.{Tag, from_list}
use circonus_agent.Tags.Encoding.{has_tag}
use circonus_agent.Tags.Joined.{from_list-append, has_tag-append}
use circonus_agent.Statsd.Format.{Groups, match_metric}
use circonus_agent.Statsd.Destination.{Destination}
use circonus_agent.Statsd.Metrics.{
  Lib, Gauge, Recording, Outcome, Server, replace_spaces, statsd_type, has_metrics, metric_tag_list,
  Target, record_in, as_counter, gauge_value, as_gauge, as_histogram, by_type, to_destination,
  sampled, matched, parse_metric, float64, int64, uint64, count_in_zero, set_text, recorded,
}

module _ (lib : Lib) (tag : Tag) where
  -- Whether an outcome that records something carries the tag.
  abbrev pub carries : Outcome lib.Float → Bool
  carries (recorded dest name tags rs) = has_tag tag tags
  carries _ = true

  record_in-carries :
      (t : Target lib) (more : List Tag) (rs : List (Recording lib.Float))
      → has_tag tag t.tags ≡ true
      → carries (record_in lib t more rs) ≡ true
  record_in-carries t more rs h = elim (Bool-cases t.is_there) [
    | inl there ↦ rw (there, has_tag-append tag t.tags more, h) refl
    | inr missing ↦ rw missing refl
  ]

  counter_carries :
      (t : Target lib) (rate : lib.Float) (o : Option ℕ)
      → has_tag tag t.tags ≡ true
      → carries (as_counter lib t rate o) ≡ true
  counter_carries t rate none h = refl
  counter_carries t rate (some v) h = record_in-carries t _ _ h

  gauge_carries :
      (histogram_gauges : Bool) (t : Target lib) (o : Option (Gauge lib.Float))
      → has_tag tag t.tags ≡ true
      → carries (as_gauge lib histogram_gauges t o) ≡ true
  gauge_carries b t none h = refl
  gauge_carries true t (some (float64 v)) h = record_in-carries t [] _ h
  gauge_carries true t (some (int64 v)) h = refl
  gauge_carries true t (some (uint64 v)) h = refl
  gauge_carries false t (some v) h = record_in-carries t _ _ h

  histogram_carries :
      (t : Target lib) (more : List Tag) (rate : lib.Float) (o : Option lib.Float)
      → has_tag tag t.tags ≡ true
      → carries (as_histogram lib t more rate o) ≡ true
  histogram_carries t more rate none h = refl
  histogram_carries t more rate (some v) h = record_in-carries t more _ h

  by_type-carries :
      (histogram_gauges : Bool) (t : Target lib) (rate : lib.Float) (kind value : Bytes)
      → has_tag tag t.tags ≡ true
      → carries (by_type lib histogram_gauges t rate kind value) ≡ true
  unfolding by_type
  by_type-carries b t rate kind value h = ground (
    arith,
    counter_carries t rate (parse_uint 64 value) h,
    gauge_carries b t (gauge_value lib value) h,
    histogram_carries t [] rate (lib.parse_float 64 value) h,
    histogram_carries t (statsd_type (codes "timing") ∷ []) rate (lib.parse_float 64 value) h,
    record_in-carries t
        (record { category = codes "set_id"; value = value } ∷ statsd_type (codes "count") ∷ [])
        (count_in_zero (pos 1) ∷ []) h,
    record_in-carries t [] (set_text value ∷ []) h,
  )

  routed-carries :
      (s : Server) (g : Groups) (rate : lib.Float) (d : Destination × Bytes)
      → has_tag tag (from_list s.base_tags) ≡ true
      → carries (to_destination lib s g rate d) ≡ true
  routed-carries s g rate (dest, name) h = elim (Bool-cases (has_metrics s dest)) [
    | inl there ↦ rw there (
        by_type-carries s.histogram_gauges _ rate g.kind g.value (
          rw
            (
              from_list-append s.base_tags (metric_tag_list g.tags),
              has_tag-append tag (from_list s.base_tags) (from_list (metric_tag_list g.tags)),
              h,
            )
            refl))
    | inr missing ↦ rw missing refl
  ]

  sampled-carries :
      (s : Server) (g : Groups) (o : Option lib.Float)
      → has_tag tag (from_list s.base_tags) ≡ true
      → carries (sampled lib s g o) ≡ true
  sampled-carries s g none h = refl
  sampled-carries s g (some rate) h = elim (Bool-cases (lib.is_zero rate)) [
    | inl nothing ↦ rw nothing refl
    | inr fine ↦ rw fine (routed-carries s g rate _ h)
  ]

  matched-carries :
      (s : Server) (o : Option Groups)
      → has_tag tag (from_list s.base_tags) ≡ true
      → carries (matched lib s o) ≡ true
  matched-carries s none h = refl
  matched-carries s (some g) h =
      elim (Bool-cases (is_empty (replace_spaces false g.name) || is_empty g.value)) [
        | inl missing ↦ rw missing refl
        | inr there ↦ elim (Bool-cases (is_empty g.sample)) [
          | inl plain ↦ rw (there, plain) (routed-carries s g lib.one _ h)
          | inr rated ↦ rw (there, rated) (sampled-carries s g (lib.parse_float 32 g.sample) h)
        ]
      ]

  -- Whatever the listener records for a metric carries each of the base tags.
  pub parse_metric-carries :
      (s : Server) (metric : Bytes)
      → has_tag tag (from_list s.base_tags) ≡ true
      → carries (parse_metric lib s metric) ≡ true
  unfolding parse_metric
  parse_metric-carries s [] h = refl
  parse_metric-carries s (c ∷ metric) h = matched-carries s (match_metric (c ∷ metric)) h
