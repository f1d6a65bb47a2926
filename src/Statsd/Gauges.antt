-- ===== src/Statsd/Gauges.antt =====
-- Which metrics make the listener panic.
use circonus_agent.Prelude.{
  ℕ, ◌≡◌, refl, ◌∙◌, inl, inr, Bool, true, false, ◌||◌, Option, none, some, List, [], ◌∷◌, ◌++◌,
  arith, Bool-cases,
}
use circonus_agent.Prelude.Bytes.{Bytes, codes, is_empty, equal, contains}
use circonus_agent.Prelude.Strconv.{parse_uint}
use circonus_agent.Tags.{Tag}
use circonus_agent.Statsd.Format.{Groups, match_metric}
use circonus_agent.Statsd.Destination.{Destination, get_metric_destination}
use circonus_agent.Statsd.Metrics.{
  Lib, Gauge, Recording, Outcome, Server, replace_spaces, statsd_type, has_metrics, Target,
  record_in, as_counter, gauge_value, as_gauge, as_histogram, by_type, to_destination, sampled,
  matched, parse_metric, set_text, panics,
}
use circonus_agent.Statsd.Written.{show_metric, IsMetric, match_metric-show_metric}

replace_spaces-is_empty :
    (s : Bytes) → is_empty s ≡ false → is_empty (replace_spaces false s) ≡ false
unfolding replace_spaces
replace_spaces-is_empty [] n = absurd (ground arith)
replace_spaces-is_empty (c ∷ s) n = ground arith

front_is_empty : (a s : Bytes) → is_empty a ≡ false → is_empty (a ++ s) ≡ false
front_is_empty [] s n = absurd (ground arith)
front_is_empty (c ∷ a) s n = refl

module _ (lib : Lib) where
  -- An outcome that is no panic.
  abbrev pub survives : Outcome lib.Float → Bool
  survives panics = false
  survives _ = true

  record_in-survives :
      (t : Target lib) (more : List Tag) (rs : List (Recording lib.Float))
      → t.is_there ≡ true
      → survives (record_in lib t more rs) ≡ true
  record_in-survives t more rs there = rw there refl

  counter_survives :
      (t : Target lib) (rate : lib.Float) (o : Option ℕ)
      → t.is_there ≡ true
      → survives (as_counter lib t rate o) ≡ true
  counter_survives t rate none there = refl
  counter_survives t rate (some v) there = record_in-survives t _ _ there

  gauge_survives :
      (t : Target lib) (o : Option (Gauge lib.Float))
      → t.is_there ≡ true
      → survives (as_gauge lib false t o) ≡ true
  gauge_survives t none there = refl
  gauge_survives t (some v) there = record_in-survives t _ _ there

  histogram_survives :
      (t : Target lib) (more : List Tag) (rate : lib.Float) (o : Option lib.Float)
      → t.is_there ≡ true
      → survives (as_histogram lib t more rate o) ≡ true
  histogram_survives t more rate none there = refl
  histogram_survives t more rate (some v) there = record_in-survives t more _ there

  by_type-survives :
      (t : Target lib) (rate : lib.Float) (kind value : Bytes)
      → t.is_there ≡ true
      → survives (by_type lib false t rate kind value) ≡ true
  unfolding by_type
  by_type-survives t rate kind value there = ground (
    arith,
    counter_survives t rate (parse_uint 64 value) there,
    gauge_survives t (gauge_value lib value) there,
    histogram_survives t [] rate (lib.parse_float 64 value) there,
    histogram_survives t (statsd_type (codes "timing") ∷ []) rate (lib.parse_float 64 value) there,
    record_in-survives t
        (record { category = codes "set_id"; value = value } ∷ statsd_type (codes "count") ∷ []) _
        there,
    record_in-survives t [] (set_text value ∷ []) there,
  )

  to_destination-survives :
      (s : Server) (g : Groups) (rate : lib.Float) (d : Destination × Bytes)
      → s.histogram_gauges ≡ false
      → survives (to_destination lib s g rate d) ≡ true
  to_destination-survives s g rate (dest, name) h = elim (Bool-cases (has_metrics s dest)) [
    | inl there ↦ rw (there, h) (by_type-survives _ rate g.kind g.value refl)
    | inr missing ↦ rw missing refl
  ]

  sampled-survives :
      (s : Server) (g : Groups) (o : Option lib.Float)
      → s.histogram_gauges ≡ false
      → survives (sampled lib s g o) ≡ true
  sampled-survives s g none h = refl
  sampled-survives s g (some rate) h = elim (Bool-cases (lib.is_zero rate)) [
    | inl nothing ↦ rw nothing refl
    | inr fine ↦ rw fine (to_destination-survives s g rate _ h)
  ]

  matched-survives :
      (s : Server) (o : Option Groups)
      → s.histogram_gauges ≡ false
      → survives (matched lib s o) ≡ true
  matched-survives s none h = refl
  matched-survives s (some g) h =
      elim (Bool-cases (is_empty (replace_spaces false g.name) || is_empty g.value)) [
        | inl missing ↦ rw missing refl
        | inr there ↦ elim (Bool-cases (is_empty g.sample)) [
          | inl plain ↦ rw (there, plain) (to_destination-survives s g lib.one _ h)
          | inr rated ↦ rw (there, rated) (sampled-survives s g (lib.parse_float 32 g.sample) h)
        ]
      ]

  -- Unless gauges are histograms, no metric makes the listener panic, whatever its text is and whether
  -- or not its destination has metrics.
  pub parse_metric-survives :
      (s : Server) (metric : Bytes)
      → s.histogram_gauges ≡ false
      → survives (parse_metric lib s metric) ≡ true
  unfolding parse_metric
  parse_metric-survives s [] h = refl
  parse_metric-survives s (c ∷ metric) h = matched-survives s (match_metric (c ∷ metric)) h

  parse_metric-matched :
      (s : Server) (metric : Bytes) (g : Groups)
      → match_metric metric ≡ some g
      → is_empty metric ≡ false
      → parse_metric lib s metric ≡ matched lib s (some g)
  unfolding parse_metric
  parse_metric-matched s [] g h n = absurd (ground arith)
  parse_metric-matched s (c ∷ metric) g h n = rw h refl

  -- The bug: where gauges are histograms, a gauge with a whole number makes the listener panic, if its
  -- destination has metrics.
  pub parse_metric_gauge_panics :
      (s : Server) (g : Groups) (v : ℕ)
      → IsMetric g
      → s.histogram_gauges ≡ true
      → g.kind ≡ codes "g"
      → g.sample ≡ []
      → contains g.value (codes ".") ≡ false
      → contains g.value (codes "-") ≡ false
      → parse_uint 64 g.value ≡ some v
      → has_metrics s
          (get_metric_destination s.host_prefix s.group_prefix (replace_spaces false g.name)).0
        ≡ true
      → parse_metric lib s (show_metric g) ≡ panics
  parse_metric_gauge_panics s g v h on kind plain dot minus whole there =
      parse_metric-matched s (show_metric g) g (match_metric-show_metric g h)
        (front_is_empty g.name _ h.0.0)
      ∙ rw (replace_spaces-is_empty g.name h.0.0, h.1.0, plain, there, on, kind)
          (unfold by_type gauge_value equal in rw (dot, minus, whole) refl)
