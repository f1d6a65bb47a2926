-- ===== src/Receiver/Samples.antt =====
-- internal/server/receiver/receiver.go: the values of the metrics, and the samples of histograms.
use circonus_agent.Prelude.{
  ℕ, zero, suc, ◌+◌, Bool, true, false, not, ◌&&◌, Option, none, some, List, [], ◌∷◌, ◌++◌, ◌==◌,
  if◌then◌else◌, length, drop,
}
use circonus_agent.Prelude.Int.{ℤ, pos}
use circonus_agent.Prelude.Bytes.{Bytes, codes, is_empty, has_prefix, contains, cut, split, join}
use circonus_agent.Prelude.Strconv.{is_digit, parse_int}

-- A value of a list in JSON, as far as the type switches tell values apart.
pub data Item (Float : Type 0) : Type 0 where
  number : Float → Item Float
  text : Bytes → Item Float
  other : Item Float

-- A value of JSON; all that is neither a number nor a string nor a list is kept whole.
pub data Value (Float Rest : Type 0) : Type 0 where
  number : Float → Value Float Rest
  text : Bytes → Value Float Rest
  items : List (Item Float) → Value Float Rest
  other : Rest → Value Float Rest

pub record HistSample (Float : Type 0) : Type 0 where
  pub bucket : Bool
  pub count : ℤ
  pub value : Float

-- What the program needs of the Unicode tables of `strings`, of floats (with Go's conversions to
-- integers), of `fmt`'s `%v`, and of the library of histograms: the texts of the bins of a serialized
-- histogram, if it is one.
pub record Lib : Type 1 where
  pub Float : Type 0
  pub Rest : Type 0
  pub to_lower : Bytes → Bytes
  pub remove_spaces : Bytes → Bytes
  pub parse_float : Bytes → Option Float
  pub to_int32 : Float → ℤ
  pub to_uint32 : Float → ℕ
  pub to_int64 : Float → ℤ
  pub to_uint64 : Float → ℕ
  pub print : Value Float Rest → Bytes
  pub dec_strings : Bytes → Option (List Bytes)

abbrev pub all_digits : Bytes → Bool
all_digits [] = true
all_digits (c ∷ s) = is_digit c && all_digits s

abbrev pub some_digits : Bytes → Bool
some_digits s = not (is_empty s) && all_digits s

abbrev number_parts : List Bytes → Bool
number_parts (whole ∷ []) = some_digits whole
number_parts (whole ∷ fraction ∷ []) = some_digits whole && some_digits fraction
number_parts _ = false

-- The regular expression `numFloatRx`.
abbrev pub is_num_float : Bytes → Bool
is_num_float s = number_parts (split b'.' s)

unfoldable pub leading_digits : Bytes → Bytes
leading_digits [] = []
leading_digits (c ∷ s) = let rest = leading_digits s in if is_digit c then c ∷ rest else []

abbrev counted : Bytes → Bytes → Option (Bytes × Bytes)
counted bucket count = if is_empty count then none else some (bucket, count)

-- `=` and a count behind a bucket's bracket.
abbrev pub match_count : Bytes → Bytes → Option (Bytes × Bytes)
match_count bucket [] = none
match_count bucket (c ∷ s) = if c == b'=' then counted bucket (leading_digits s) else none

abbrev pub match_bucket : Option (Bytes × Bytes) → Option (Bytes × Bytes)
match_bucket none = none
match_bucket (some (bucket, s)) = if is_empty bucket then none else match_count bucket s

-- The regular expression `histogramRx` at one place: the bucket and the count.
unfoldable pub match_at : Bytes → Option (Bytes × Bytes)
unfolding has_prefix cut leading_digits
match_at s = if has_prefix s (codes "H[") then match_bucket (cut (codes "]") (drop 2 s)) else none

-- The bytes of a match behind its first one.
abbrev pub match_tail : Bytes × Bytes → ℕ
match_tail (bucket, count) = length bucket + length count + 3

-- `FindAllStringSubmatch`: the matches from the left that do not overlap. The first argument is how
-- many bytes belong to the last match still.
unfoldable pub find_all : ℕ → Bytes → List (Bytes × Bytes)
unfolding match_at
find_all skip [] = []
find_all (suc skip) (c ∷ s) = find_all skip s
find_all zero (c ∷ s) =
    let rest = find_all zero s in
    elim (match_at (c ∷ s)) [ none ↦ rest | some m ↦ m ∷ find_all (match_tail m) s ]

module _ (lib : Lib) where
  open lib use {Float, Rest, parse_float, dec_strings}

  abbrev pub plain_sample : Float → HistSample Float
  plain_sample x = record { bucket = false; count = pos 0; value = x }

  abbrev pub bin_of : Option Float → Option ℤ → List (HistSample Float) → List (HistSample Float)
  bin_of (some x) (some n) rest = record { bucket = true; count = n; value = x } ∷ rest
  bin_of _ _ rest = rest

  -- The loop over the matches.
  unfoldable pub bin_samples : List (Bytes × Bytes) → List (HistSample Float)
  unfolding parse_int
  bin_samples [] = []
  bin_samples ((bucket, count) ∷ ms) =
      bin_of (parse_float bucket) (parse_int 64 count) (bin_samples ms)

  abbrev pub encoded_samples : Bytes → List (HistSample Float)
  encoded_samples sv = bin_samples (find_all 0 sv)

  abbrev pub float_samples : Option Float → List (HistSample Float)
  float_samples none = []
  float_samples (some x) = plain_sample x ∷ []

  abbrev pub serialized_samples : Option (List Bytes) → List (HistSample Float)
  serialized_samples none = []
  serialized_samples (some bins) = encoded_samples (join (codes " ") bins)

  unfoldable pub item_samples : Item Float → List (HistSample Float)
  unfolding contains split find_all bin_samples join
  item_samples (number x) = plain_sample x ∷ []
  item_samples (text sv) =
      if contains sv (codes "H[")
      then encoded_samples sv
      else if is_num_float sv
      then float_samples (parse_float sv)
      else serialized_samples (dec_strings sv)
  item_samples other = []

  unfoldable pub all_samples : List (Item Float) → List (HistSample Float)
  unfolding item_samples
  all_samples [] = []
  all_samples (v ∷ vs) = item_samples v ++ all_samples vs

  abbrev pub unless_none : List (HistSample Float) → Option (List (HistSample Float))
  unless_none [] = none
  unless_none (s ∷ ss) = some (s ∷ ss)

  unfoldable pub parse_histogram : Value Float Rest → Option (List (HistSample Float))
  unfolding all_samples
  parse_histogram (items vs) = unless_none (all_samples vs)
  parse_histogram _ = none
