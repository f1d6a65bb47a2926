-- ===== src/Tests/TagsTests.antt =====
-- Tags at concrete inputs.
use circonus_agent.Prelude.{◌≡◌, refl, true, none, some, List, [], ◌∷◌, map, arith}
use circonus_agent.Prelude.Bytes.{Bytes, codes, has_prefix, join}
use circonus_agent.Tags.{
  Tag, separator, is_valid, from_string, prep_stream_tags, encode_metric_tags,
  encode_metric_stream_tags, metric_name_with_stream_tags,
}
use circonus_agent.Tags.Order.Sorted.{IsIncreasing}
use circonus_agent.Tags.Base64.{encode_to_string}
use circonus_agent.Tags.Encoding.{has_tag, encode_metric_tags_canonical}
use circonus_agent.Tags.Parsing.{show_tag, from_string_roundtrip}
use circonus_agent.Tags.BaseTags.{get_base_tags, get_base_tags_quoted_panics, base, panics}

abbrev same : Bytes → Bytes
same s = s

abbrev tag : Bytes → Bytes → Tag
tag c v = record { category = c; value = v }

abbrev ab : List Tag
ab = tag (codes "a") (codes "x") ∷ tag (codes "b") (codes "y") ∷ []

abbrev ba : List Tag
ba = tag (codes "b") (codes "y") ∷ tag (codes "a") (codes "x") ∷ tag (codes "b") (codes "y") ∷ []

base64_padding : encode_to_string (codes "ab") ≡ codes "YWI="
unfolding encode_to_string
base64_padding = refl

sorted_pair : encode_metric_tags same same ba ≡ codes "a:x" ∷ codes "b:y" ∷ []
unfolding encode_metric_tags has_prefix
sorted_pair = refl

tagged_name :
    metric_name_with_stream_tags same same (codes "m") (tag (codes "a") (codes "x") ∷ [])
    ≡ codes "m|ST[b\"YQ==\":b\"eA==\"]"
unfolding metric_name_with_stream_tags encode_metric_stream_tags
tagged_name = refl

stream_tags : prep_stream_tags (codes "b:[y],a:x") ≡ some (codes "|ST[a:x,b:_y_]")
unfolding prep_stream_tags
stream_tags = refl

bad_stream_tags : prep_stream_tags (codes "a") ≡ none
unfolding prep_stream_tags
bad_stream_tags = refl

has_tag_swapped : (t : Tag) → has_tag t ab ≡ has_tag t ba
has_tag_swapped t = unfold has_tag in ground arith

encode_metric_tags_canonical_example :
    (encode_metric_tags same same ab ≡ encode_metric_tags same same ba)
    × IsIncreasing (encode_metric_tags same same ab)
encode_metric_tags_canonical_example =
    encode_metric_tags_canonical same same ab ba (omega arith) (omega arith) has_tag_swapped

from_string_roundtrip_example :
    join (separator ∷ []) (map show_tag (from_string (codes "a:x,b:y"))) ≡ codes "a:x,b:y"
unfolding is_valid
from_string_roundtrip_example = from_string_roundtrip (codes "a:x,b:y") refl (λ e. cc)

get_base_tags_quoted_panics_example :
    (get_base_tags true (codes "\"a:x\"") none).0 ≡ panics
    × ((get_base_tags true [] (get_base_tags true (codes "\"a:x\"") none).1).0 ≡ base [])
get_base_tags_quoted_panics_example =
    get_base_tags_quoted_panics (codes "a:x\"") [] true (omega arith)
