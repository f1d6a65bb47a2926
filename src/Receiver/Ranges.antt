-- ===== src/Receiver/Ranges.antt =====
-- The ranges of the numbers that are recorded.
use native.Mathlib.Numerals.{unary_clauses}
use circonus_agent.Prelude.{
  ℕ, zero, suc, ◌-◌, ◌*◌, ◌^◌, ◌<◌, ◌≡◌, refl, inl, inr, Bool, true, ◌&&◌, Option, none, some, List,
  [], ◌∷◌, ◌++◌, map, arith, ltb, Bool-cases,
}
use circonus_agent.Prelude.Int.{ℤ, pos, negsuc}
use circonus_agent.Prelude.Bytes.{Bytes, codes, join}
use circonus_agent.Prelude.Strconv.{
  within_bits, parse_uint, positive_within, negative_within, parse_int,
}
use circonus_agent.Receiver.Parse.{
  Number, Recording, JsonMetric, tag_list, parse_int32, parse_uint32, parse_int64, parse_uint64,
  parse_float64, gauge_of, listed, sample_recording, sample_recordings, recordings, merged_name,
  call_of, metric_calls, all_calls, int32, int64, uint32, uint64, float64, gauge, count_for_value,
}
use circonus_agent.Tags.{from_list}
use circonus_agent.Receiver.Samples.{
  Item, Value, HistSample, Lib, find_all, bin_of, bin_samples, float_samples, serialized_samples,
  item_samples, all_samples, unless_none, parse_histogram, number, text, other, items,
}

-- Whether a number fits a signed integer of so many bits.
abbrev pub fits : ℕ → ℤ → Bool
fits bits (pos n) = ltb n (2 ^ (bits - 1))
fits bits (negsuc n) = ltb n (2 ^ (bits - 1))

-- The range of a number's type.
abbrev pub in_range : {Float : Type 0} → Number Float → Bool
in_range (int32 n) = fits 32 n
in_range (int64 n) = fits 64 n
in_range (uint32 n) = ltb n (2 ^ 32)
in_range (uint64 n) = ltb n (2 ^ 64)
in_range (float64 x) = true

module _ {A : Type 0} where
  -- Every entry of a list passes a test.
  abbrev pub every : (A → Bool) → List A → Bool
  every p [] = true
  every p (x ∷ xs) = p x && every p xs

  every-append :
      (p : A → Bool) (xs ys : List A)
      → every p xs ≡ true
      → every p ys ≡ true
      → every p (xs ++ ys) ≡ true
  every-append p [] ys h k = k
  every-append p (x ∷ xs) ys h k = ground (arith, every-append p xs ys)

every-map :
    {A B : Type 0} (p : B → Bool) (f : A → B) (xs : List A)
    → every (λ x. p (f x)) xs ≡ true
    → every p (map f xs) ≡ true
every-map p f [] h = refl
every-map p f (x ∷ xs) h = ground (arith, every-map p f xs)

within_bits-some :
    (limit : ℕ) (o : Option ℕ) (n : ℕ) → within_bits limit o ≡ some n → ltb n limit ≡ true
within_bits-some limit none n h = absurd (ground arith)
within_bits-some limit (some k) n h = ground arith

parse_uint_bound : (bits n : ℕ) (s : Bytes) → parse_uint bits s ≡ some n → ltb n (2 ^ bits) ≡ true
unfolding parse_uint
parse_uint_bound bits n [] h = absurd (ground arith)
parse_uint_bound bits n (c ∷ s) h = within_bits-some (2 ^ bits) _ n h

pow_suc : (k : ℕ) → 2 ^ suc k ≡ 2 ^ k * 2
pow_suc k = simp unary_clauses

pow_pos : (k : ℕ) → 0 < 2 ^ k
pow_pos zero = omega arith
pow_pos (suc k) = omega (arith, pow_pos k, pow_suc k)

positive_fits :
    (bits : ℕ) (o : Option ℕ) (z : ℤ)
    → positive_within (2 ^ (bits - 1)) o ≡ some z
    → fits bits z ≡ true
positive_fits bits none z h = absurd (ground arith)
positive_fits bits (some n) z h = ground arith

negative_fits :
    (bits : ℕ) (o : Option ℕ) (z : ℤ)
    → negative_within (2 ^ (bits - 1)) o ≡ some z
    → fits bits z ≡ true
negative_fits bits none z h = absurd (ground arith)
negative_fits bits (some zero) z h = ground (arith, pow_pos (bits - 1))
negative_fits bits (some (suc n)) z h = ground arith

parse_int-fits : (bits : ℕ) (s : Bytes) (z : ℤ) → parse_int bits s ≡ some z → fits bits z ≡ true
unfolding parse_int
parse_int-fits bits [] z h = absurd (ground arith)
parse_int-fits bits (c ∷ s) z h = ground (
  arith,
  positive_fits bits (parse_uint bits s) z,
  positive_fits bits (parse_uint bits (c ∷ s)) z,
  negative_fits bits (parse_uint bits s) z,
)

module _ (lib : Lib) where
  -- Go's conversions of floats give numbers of their types.
  abbrev pub Converts : Type 0
  Converts =
      ((x : lib.Float) → fits 32 (lib.to_int32 x) ≡ true)
      × ((x : lib.Float) → fits 64 (lib.to_int64 x) ≡ true)
      × ((x : lib.Float) → ltb (lib.to_uint32 x) (2 ^ 32) ≡ true)
      × ((x : lib.Float) → ltb (lib.to_uint64 x) (2 ^ 64) ≡ true)

  -- What a recording may hold.
  abbrev pub recording_in_range : Recording lib.Float → Bool
  recording_in_range (gauge n) = in_range n
  recording_in_range (count_for_value v n) = fits 64 n
  recording_in_range _ = true

  gauge_of_range :
      {A : Type 0} (f : A → Number lib.Float) (o : Option A)
      → ((v : A) → o ≡ some v → in_range (f v) ≡ true)
      → every recording_in_range (gauge_of lib f o) ≡ true
  gauge_of_range f none h = refl
  gauge_of_range f (some v) h = ground (arith, h v refl)

  abbrev sample_fits : HistSample lib.Float → Bool
  sample_fits s = fits 64 s.count

  bin_of-fits :
      (v : Option lib.Float) (n : Option ℤ) (rest : List (HistSample lib.Float))
      → ((z : ℤ) → n ≡ some z → fits 64 z ≡ true)
      → every sample_fits rest ≡ true
      → every sample_fits (bin_of lib v n rest) ≡ true
  bin_of-fits none n rest h k = k
  bin_of-fits (some x) none rest h k = k
  bin_of-fits (some x) (some z) rest h k = rw (h z refl, k) refl

  bin_samples_fit : (ms : List (Bytes × Bytes)) → every sample_fits (bin_samples lib ms) ≡ true
  unfolding bin_samples
  bin_samples_fit [] = refl
  bin_samples_fit ((bucket, count) ∷ ms) =
      bin_of-fits (lib.parse_float bucket) (parse_int 64 count) (bin_samples lib ms)
        (parse_int-fits 64 count) (bin_samples_fit ms)

  float_samples_fit : (o : Option lib.Float) → every sample_fits (float_samples lib o) ≡ true
  float_samples_fit none = refl
  float_samples_fit (some x) = refl

  serialized_samples_fit :
      (o : Option (List Bytes)) → every sample_fits (serialized_samples lib o) ≡ true
  serialized_samples_fit none = refl
  serialized_samples_fit (some bins) = bin_samples_fit (find_all 0 (join (codes " ") bins))

  item_samples_fit : (v : Item lib.Float) → every sample_fits (item_samples lib v) ≡ true
  unfolding item_samples
  item_samples_fit (number x) = refl
  item_samples_fit (text s) = ground (
    arith,
    bin_samples_fit (find_all 0 s),
    float_samples_fit (lib.parse_float s),
    serialized_samples_fit (lib.dec_strings s),
  )
  item_samples_fit other = refl

  all_samples_fit : (vs : List (Item lib.Float)) → every sample_fits (all_samples lib vs) ≡ true
  unfolding all_samples
  all_samples_fit [] = refl
  all_samples_fit (v ∷ vs) =
      every-append sample_fits (item_samples lib v) (all_samples lib vs) (item_samples_fit v)
        (all_samples_fit vs)

  sample_recording_range :
      (s : HistSample lib.Float)
      → sample_fits s ≡ true
      → recording_in_range (sample_recording lib s) ≡ true
  sample_recording_range s h = elim (Bool-cases s.bucket) [
    | inl binned ↦ rw (binned, h) refl
    | inr plain ↦ rw plain refl
  ]

  recorded_samples_range :
      (ss : List (HistSample lib.Float))
      → every sample_fits ss ≡ true
      → every recording_in_range (map (sample_recording lib) ss) ≡ true
  recorded_samples_range [] h = refl
  recorded_samples_range (s ∷ ss) h =
      ground (arith, sample_recording_range s, recorded_samples_range ss)

  unless_none_range :
      (ss : List (HistSample lib.Float))
      → every sample_fits ss ≡ true
      → every recording_in_range (sample_recordings lib (unless_none lib ss)) ≡ true
  unless_none_range [] h = refl
  unless_none_range (s ∷ ss) h = recorded_samples_range (s ∷ ss) h

  samples_range :
      (v : Value lib.Float lib.Rest)
      → every recording_in_range (sample_recordings lib (parse_histogram lib v)) ≡ true
  unfolding parse_histogram
  samples_range (number x) = refl
  samples_range (text s) = refl
  samples_range (items vs) = unless_none_range (all_samples lib vs) (all_samples_fit vs)
  samples_range (other r) = refl

  module _ (converts : Converts) where
    parse_int32_range :
        (v : Value lib.Float lib.Rest) (n : ℤ) → parse_int32 lib v ≡ some n → fits 32 n ≡ true
    unfolding parse_int32
    parse_int32_range (number x) n h = ground (arith, converts.0 x)
    parse_int32_range (text s) n h = parse_int-fits 32 s n h
    parse_int32_range (items vs) n h = absurd (ground arith)
    parse_int32_range (other r) n h = absurd (ground arith)

    parse_int64_range :
        (v : Value lib.Float lib.Rest) (n : ℤ) → parse_int64 lib v ≡ some n → fits 64 n ≡ true
    unfolding parse_int64
    parse_int64_range (number x) n h = ground (arith, converts.1 x)
    parse_int64_range (text s) n h = parse_int-fits 64 s n h
    parse_int64_range (items vs) n h = absurd (ground arith)
    parse_int64_range (other r) n h = absurd (ground arith)

    parse_uint32_range :
        (v : Value lib.Float lib.Rest) (n : ℕ) → parse_uint32 lib v ≡ some n → ltb n (2 ^ 32) ≡ true
    unfolding parse_uint32
    parse_uint32_range (number x) n h = ground (arith, converts.2 x)
    parse_uint32_range (text s) n h = parse_uint_bound 32 n s h
    parse_uint32_range (items vs) n h = absurd (ground arith)
    parse_uint32_range (other r) n h = absurd (ground arith)

    parse_uint64_range :
        (v : Value lib.Float lib.Rest) (n : ℕ) → parse_uint64 lib v ≡ some n → ltb n (2 ^ 64) ≡ true
    unfolding parse_uint64
    parse_uint64_range (number x) n h = ground (arith, converts.3 x)
    parse_uint64_range (text s) n h = parse_uint_bound 64 n s h
    parse_uint64_range (items vs) n h = absurd (ground arith)
    parse_uint64_range (other r) n h = absurd (ground arith)

    recordings_range :
        (kind : Bytes) (v : Value lib.Float lib.Rest)
        → every recording_in_range (recordings lib kind v) ≡ true
    unfolding recordings
    recordings_range kind v = ground (
      arith,
      gauge_of_range int32 (parse_int32 lib v) (parse_int32_range v),
      gauge_of_range uint32 (parse_uint32 lib v) (parse_uint32_range v),
      gauge_of_range int64 (parse_int64 lib v) (parse_int64_range v),
      gauge_of_range uint64 (parse_uint64 lib v) (parse_uint64_range v),
      gauge_of_range float64 (parse_float64 lib v) (λ x h. refl),
      samples_range (listed lib v),
    )

    metric_calls_range :
        (base : List Bytes) (id : Bytes) (m : JsonMetric lib.Float lib.Rest)
        → every (λ c. recording_in_range c.recording) (metric_calls lib base id m) ≡ true
    unfolding metric_calls
    metric_calls_range base id m =
        every-map (λ c. recording_in_range c.recording)
          (call_of lib (merged_name lib m.name (tag_list base id m.tags))
            (from_list (tag_list base id m.tags)))
          (recordings lib m.kind m.value) (recordings_range m.kind m.value)

    -- Every whole number that is recorded for the metrics of a request, the counts of the bins of
    -- histograms among them, is in the range of its type, if Go's conversions of floats give numbers of
    -- their types.
    pub all_calls_range :
        (base : List Bytes) (id : Bytes) (ms : List (JsonMetric lib.Float lib.Rest))
        → every (λ c. recording_in_range c.recording) (all_calls lib base id ms) ≡ true
    unfolding all_calls
    all_calls_range base id [] = refl
    all_calls_range base id (m ∷ ms) =
        every-append _ (metric_calls lib base id m) (all_calls lib base id ms)
          (metric_calls_range base id m) (all_calls_range base id ms)
