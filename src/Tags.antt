-- ===== src/Tags.antt =====
-- internal/tags/tags.go: tags, and stream tags in metric names.
pub mod Base64
pub mod Decoding
pub mod Order
pub mod Encoding
pub mod Streaming
pub mod Lossless
pub mod Parsing
pub mod Joined
pub mod BaseTags
use circonus_agent.Prelude.{
  ℕ, ◌+◌, Bool, true, false, not, ◌&&◌, ◌||◌, Option, none, some, List, [], ◌∷◌, ◌++◌, ltb, ◌==◌,
  if◌then◌else◌, take,
}
use circonus_agent.Prelude.Bytes.{
  Bytes, codes, is_empty, has_prefix, contains, cut, split, join, trim_suffix, has_byte,
}
use Base64.{encode_to_string}
use Order.{sort_strings, unique}

pub record Tag : Type 0 where
  pub category : Bytes
  pub value : Bytes

abbrev pub delimiter : ℕ
delimiter = b':'

abbrev pub separator : ℕ
separator = b','

abbrev pub max_tags : ℕ
max_tags = 256

abbrev pub stream_open : Bytes
stream_open = codes "|ST["

abbrev pub stream_close : Bytes
stream_close = codes "]"

-- Has a category or a value been encoded before?
abbrev pub encoded_sig : Bytes
encoded_sig = codes "b\""

abbrev pub pair_ok : Option (Bytes × Bytes) → Bool
pair_ok none = false
pair_ok (some (c, v)) = not (is_empty c) && not (is_empty v) && not (has_byte delimiter v)

abbrev pub all_pairs : List Bytes → Bool
all_pairs [] = true
all_pairs (p ∷ ps) = pair_ok (cut (delimiter ∷ []) p) && all_pairs ps

-- The regular expression `valid`: pairs of parts that are not empty and hold no `:` and no `,`.
unfoldable pub is_valid : Bytes → Bool
unfolding split cut has_byte
is_valid s = all_pairs (split separator s)

abbrev pub tag_onto : Option (Bytes × Bytes) → List Tag → List Tag
tag_onto none ts = ts
tag_onto (some (c, v)) ts = record { category = c; value = v } ∷ ts

unfoldable pub from_list : List Bytes → List Tag
unfolding cut
from_list [] = []
from_list (t ∷ ts) = tag_onto (cut (delimiter ∷ []) t) (from_list ts)

unfoldable pub from_string : Bytes → List Tag
unfolding is_valid split from_list
from_string s = if is_empty s || not (is_valid s) then [] else from_list (split separator s)

-- The regular expression `cleaner`.
abbrev is_quote_or_bracket : ℕ → Bool
is_quote_or_bracket c = c == b'[' || c == b']' || c == 39 || c == b'"' || c == 96

unfoldable pub clean : Bytes → Bytes
clean [] = []
clean (c ∷ s) = (if is_quote_or_bracket c then b'_' else c) ∷ clean s

-- `none` is the error for an invalid format.
unfoldable pub prep_stream_tags : Bytes → Option Bytes
unfolding is_valid split clean sort_strings join
prep_stream_tags tag_list =
    if is_empty tag_list
    then some []
    else if not (is_valid tag_list)
    then none
    else some (
        stream_open
        ++ (join (separator ∷ []) (sort_strings (split separator (clean tag_list)))
            ++ stream_close))

abbrev pub with_stream_tags : Bytes → Bytes → Bytes
with_stream_tags metric tag_list =
    if is_empty tag_list then metric else metric ++ (stream_open ++ (tag_list ++ stream_close))

-- `b"%s"` of the encoding, unless it has been encoded before.
abbrev pub encode_part : Bytes → Bytes → Bytes
encode_part s lowered =
    if has_prefix s encoded_sig then s else encoded_sig ++ (encode_to_string lowered ++ codes "\"")

-- What the rest needs of the Unicode tables: `strings.ToLower`, and `strings.Map` with `removeSpaces`.
module _ (to_lower remove_spaces : Bytes → Bytes) where
  abbrev pub clean_category : Bytes → Bytes
  clean_category c = if has_prefix c encoded_sig then c else remove_spaces (to_lower c)

  -- The key that a tag sets in the map, if it is valid.
  unfoldable pub tag_keys : List Tag → List Bytes
  tag_keys [] = []
  tag_keys (t ∷ ts) =
      let rest = tag_keys ts in
      if is_empty (clean_category t.category) || is_empty t.value
      then rest
      else (clean_category t.category ++ (delimiter ∷ t.value)) ∷ rest

  unfoldable pub encode_metric_tags : List Tag → List Bytes
  unfolding tag_keys sort_strings unique
  encode_metric_tags ts = sort_strings (unique (tag_keys (take max_tags ts)))

  -- An entry of `tagList`; it stays empty where the tag is skipped.
  abbrev pub encode_pair : Option (Bytes × Bytes) → Bytes
  encode_pair none = []
  encode_pair (some (c, v)) = encode_part c (to_lower c) ++ (delimiter ∷ encode_part v v)

  unfoldable pub encode_entries : ℕ → List Bytes → List Bytes
  unfolding cut
  encode_entries i [] = []
  encode_entries i (t ∷ ts) =
      (if ltb i max_tags then encode_pair (cut (delimiter ∷ []) t) else [])
      ∷ encode_entries (i + 1) ts

  unfoldable pub encode_metric_stream_tags : List Tag → Bytes
  unfolding encode_metric_tags encode_entries join encode_to_string
  encode_metric_stream_tags ts = join (separator ∷ []) (encode_entries 0 (encode_metric_tags ts))

  unfoldable pub metric_name_with_stream_tags : Bytes → List Tag → Bytes
  unfolding contains encode_metric_stream_tags
  metric_name_with_stream_tags metric [] = metric
  metric_name_with_stream_tags metric (t ∷ ts) =
      if contains metric stream_open
      then metric
      else with_stream_tags metric (encode_metric_stream_tags (t ∷ ts))

  -- The name and the tags in it, taken apart at the first `|ST[`.
  abbrev pub merge_onto : List Bytes → Option (Bytes × Bytes) → Bytes
  merge_onto tags none = encode_metric_stream_tags (from_list tags)
  merge_onto tags (some (name, embedded)) =
      with_stream_tags name (
        encode_metric_stream_tags (from_list (split separator (trim_suffix embedded b']') ++ tags)))

  unfoldable pub merge_tags : Bytes → List Bytes → Bytes
  unfolding contains cut split from_list encode_metric_stream_tags trim_suffix
  merge_tags name [] = name
  merge_tags name (t ∷ tags) =
      if not (contains name stream_open)
      then encode_metric_stream_tags (from_list (t ∷ tags))
      else merge_onto (t ∷ tags) (cut stream_open name)
