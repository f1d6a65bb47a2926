-- ===== src/Tags/Parsing.antt =====
-- Lists of tags as text.

use circonus_agent.Prelude.{
  ℕ, ◌≡◌, refl, ◌≢◌, inl, inr, true, false, some, List, [], ◌∷◌, ◌++◌, map, arith, Bool-cases,
  Option-cases,
}
use circonus_agent.Prelude.Bytes.{
  Bytes, is_empty, contains, cut, onto_first, split, join, contains_middle,
}
use circonus_agent.Tags.{
  Tag, delimiter, separator, stream_open, stream_close, all_pairs, is_valid, from_list, from_string,
  encode_metric_stream_tags, metric_name_with_stream_tags, merge_tags,
}

split-ne-nil : (sep : ℕ) (s : Bytes) → split sep s ≢ []
unfolding split
split-ne-nil sep [] = λ e. cc
split-ne-nil sep (c ∷ s) = ground (arith, split-ne-nil sep s)

join_onto :
    (sep c : ℕ) (ps : List Bytes)
    → ps ≢ []
    → join (sep ∷ []) (onto_first c ps) ≡ c ∷ join (sep ∷ []) ps
unfolding join
join_onto sep c [] n = absurd (n refl)
join_onto sep c (p ∷ []) n = refl
join_onto sep c (p ∷ q ∷ ps) n = refl

join_empty :
    (sep : ℕ) (ps : List Bytes) → ps ≢ [] → join (sep ∷ []) ([] ∷ ps) ≡ sep ∷ join (sep ∷ []) ps
unfolding join
join_empty sep [] n = absurd (n refl)
join_empty sep (p ∷ ps) n = refl

-- What is split at a byte can be joined again.
pub join-split : (sep : ℕ) (s : Bytes) → join (sep ∷ []) (split sep s) ≡ s
unfolding split
join-split sep [] = unfold join in refl
join-split sep (c ∷ s) = ground (
  arith,
  join-split sep s,
  join_onto sep c (split sep s) (split-ne-nil sep s),
  join_empty sep (split sep s) (split-ne-nil sep s),
)

-- What is cut at a byte.
pub cut_append : (b : ℕ) (s : Bytes) (x y : Bytes) → cut (b ∷ []) s ≡ some (x, y) → s ≡ x ++ (b ∷ y)
unfolding cut
cut_append b [] x y h = absurd (ground arith)
cut_append b (c ∷ s) x y h = elim (Option-cases (cut (b ∷ []) s)) [
  | inl e ↦ ground arith
  | inr ((x', y'), e) ↦ ground (arith, cut_append b s x' y' e)
]

-- A tag as it is written.
abbrev pub show_tag : Tag → Bytes
show_tag t = t.category ++ (delimiter ∷ t.value)

show-from_list : (ps : List Bytes) → all_pairs ps ≡ true → map show_tag (from_list ps) ≡ ps
unfolding from_list
show-from_list [] h = refl
show-from_list (p ∷ ps) h = elim (Option-cases (cut (delimiter ∷ []) p)) [
  | inl e ↦ absurd (ground arith)
  | inr ((x, y), e) ↦ ground (arith, show-from_list ps, cut_append delimiter p x y e)
]

-- A valid list of tags that is not empty is taken apart into tags that, written one by one and joined
-- with commas, are the same text.
pub from_string_roundtrip :
    (s : Bytes)
    → is_valid s ≡ true
    → s ≢ []
    → join (separator ∷ []) (map show_tag (from_string s)) ≡ s
unfolding from_string
from_string_roundtrip [] v n = absurd (n refl)
from_string_roundtrip (c ∷ s) v n =
    ground (arith, show-from_list (split separator (c ∷ s)), join-split separator (c ∷ s))

pub contains_tagged :
    (metric tag_list : Bytes)
    → contains (metric ++ (stream_open ++ (tag_list ++ stream_close))) stream_open ≡ true
contains_tagged metric tag_list = contains_middle metric stream_open (tag_list ++ stream_close)

module _ (to_lower remove_spaces : Bytes → Bytes) where
  -- The bug: tags merged into a name with no stream tags give the tags alone, whatever the name is.
  pub merge_tags_forgets :
      (name other : Bytes) (tags : List Bytes)
      → contains name stream_open ≡ false
      → contains other stream_open ≡ false
      → tags ≢ []
      → merge_tags to_lower remove_spaces name tags ≡ merge_tags to_lower remove_spaces other tags
  unfolding merge_tags
  merge_tags_forgets name other [] p q n = absurd (n refl)
  merge_tags_forgets name other (t ∷ tags) p q n = rw (p, q)

  -- Stream tags are put into a name once: what has got its tags keeps them as they are.
  pub metric_name_with_stream_tags_idem :
      (metric : Bytes) (ts : List Tag)
      → metric_name_with_stream_tags to_lower remove_spaces
          (metric_name_with_stream_tags to_lower remove_spaces metric ts)
          ts
        ≡ metric_name_with_stream_tags to_lower remove_spaces metric ts
  unfolding metric_name_with_stream_tags
  metric_name_with_stream_tags_idem metric [] = refl
  metric_name_with_stream_tags_idem metric (t ∷ ts) =
      let encoded = encode_metric_stream_tags to_lower remove_spaces (t ∷ ts) in
      elim (Bool-cases (contains metric stream_open)) [
        | inl tagged ↦ ground arith
        | inr plain ↦ elim (Bool-cases (is_empty encoded)) [
          | inl nothing ↦ ground arith
          | inr something ↦ ground (arith, contains_tagged metric encoded)
        ]
      ]
