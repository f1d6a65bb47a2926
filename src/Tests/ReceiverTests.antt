-- ===== src/Tests/ReceiverTests.antt =====
-- The write receiver at concrete inputs.
use circonus_agent.Prelude.{ℕ, ◌%◌, ◌^◌, ◌≡◌, refl, true, none, some, List, [], ◌∷◌, map, arith}
use circonus_agent.Prelude.Bytes.{Bytes, codes, equal, contains, split, join, has_byte}
use circonus_agent.Prelude.Int.{pos}
use circonus_agent.Prelude.Strconv.{parse_uint}
use circonus_agent.Tags.{Tag, from_list}
use circonus_agent.Tags.Encoding.{has_tag}
use circonus_agent.Receiver.Samples.{Item, Value, Lib, find_all, bin_samples, item_samples}
use circonus_agent.Receiver.Bins.{show_bin, item_samples_bins}
use circonus_agent.Receiver.Parse.{JsonMetric, write_tags, parse_int32, metric_calls, all_calls}
use circonus_agent.Receiver.Ranges.{every, Converts, recording_in_range, all_calls_range}
use circonus_agent.Receiver.Recorded.{Tagged, all_calls-Tagged, metric_calls_forget}

abbrev unchanged : Bytes → Bytes
unchanged s = s

abbrev bins : List (Bytes × Bytes)
bins = (codes "1.0e+00", codes "3") ∷ (codes "2", codes "40") ∷ []

-- Whole numbers for floats, and every text that can be read as a serialized histogram has the same bins.
abbrev whole_lib : Lib
whole_lib = record {
  Float = ℕ;
  Rest = Unit {0};
  to_lower = unchanged;
  remove_spaces = unchanged;
  parse_float = parse_uint 64;
  to_int32 = λ x. pos (x % 2 ^ 31);
  to_uint32 = λ x. x % 2 ^ 32;
  to_int64 = λ x. pos (x % 2 ^ 63);
  to_uint64 = λ x. x % 2 ^ 64;
  print = λ _. [];
  dec_strings = λ _. some (map show_bin bins);
}

two_bins :
    find_all 0 (codes "H[1]=2 x H[]=3 H[4]=50")
    ≡ (codes "1", codes "2") ∷ (codes "4", codes "50") ∷ []
unfolding find_all
two_bins = refl

too_large : parse_int32 whole_lib (Value.text (codes "2147483648")) ≡ none
unfolding parse_int32
too_large = refl

item_samples_bins_example :
    (item_samples whole_lib (Item.text (join (codes " ") (map show_bin bins)))
      ≡ bin_samples whole_lib bins)
    × (item_samples whole_lib (Item.text (codes "AAEA")) ≡ bin_samples whole_lib bins)
unfolding has_byte contains split
item_samples_bins_example =
    item_samples_bins whole_lib (codes "1.0e+00", codes "3") ((codes "2", codes "40") ∷ [])
      (codes "AAEA") ((refl, refl, refl), ((refl, refl, refl), tt)) refl refl refl

abbrev one_metric : JsonMetric ℕ (Unit {0})
one_metric = record {
  name = codes "m";
  kind = codes "i";
  tags = codes "a:b" ∷ [];
  value = Value.number 7;
}

whole_converts : Converts whole_lib
whole_converts =
    ((λ x. ground arith), (λ x. ground arith), (λ x. ground arith), (λ x. ground arith))

all_calls_range_example :
    every
      (λ c. recording_in_range whole_lib c.recording)
      (all_calls whole_lib write_tags (codes "x") (one_metric ∷ []))
    ≡ true
all_calls_range_example =
    all_calls_range whole_lib whole_converts write_tags (codes "x") (one_metric ∷ [])

abbrev write_tag : Tag
write_tag = record { category = codes "collector"; value = codes "write" }

all_calls-Tagged_example :
    Tagged whole_lib write_tag
      (codes "x")
      (all_calls whole_lib write_tags (codes "x") (one_metric ∷ []))
unfolding has_tag from_list equal
all_calls-Tagged_example =
    all_calls-Tagged whole_lib write_tag write_tags (codes "x") (one_metric ∷ []) refl

metric_calls_forget_example :
    metric_calls whole_lib write_tags (codes "x") (record one_metric { name = codes "a|ST" })
    ≡ metric_calls whole_lib write_tags (codes "x") (record one_metric { name = codes "b|ST" })
unfolding contains
metric_calls_forget_example =
    metric_calls_forget whole_lib write_tags (codes "x") (codes "a|ST") (codes "b|ST") one_metric
      refl refl refl refl
