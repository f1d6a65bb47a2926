-- ===== src/Receiver/Recorded.antt =====
-- The tags and the names under which the metrics of a request are recorded.
use circonus_agent.Prelude.{◌≡◌, refl, ap, ◌∙◌, ◌≢◌, true, false, List, [], ◌∷◌, ◌++◌, map, arith}
use circonus_agent.Prelude.Bytes.{Bytes, codes, equal_refl, has_prefix, contains, cut}
use circonus_agent.Tags.{Tag, stream_open, from_list}
use circonus_agent.Tags.Encoding.{has_tag}
use circonus_agent.Receiver.Parse.{
  Recording, Call, JsonMetric, tag_list, recordings, call_of, metric_calls, all_calls,
}
use circonus_agent.Tags.Joined.{from_list-append, has_tag-append}
use circonus_agent.Receiver.Samples.{Lib}
use circonus_agent.Tags.Parsing.{merge_tags_forgets}

abbrev pub id_tag : Bytes → Tag
id_tag id = record { category = codes "collector_id"; value = id }

from_list-id : (id : Bytes) → from_list ((codes "collector_id:" ++ id) ∷ []) ≡ id_tag id ∷ []
unfolding from_list cut has_prefix
from_list-id [] = refl
from_list-id (c ∷ id) = refl

from_list-tag_list :
    (base ts : List Bytes) (id : Bytes)
    → from_list (tag_list base id ts) ≡ from_list base ++ (from_list ts ++ (id_tag id ∷ []))
from_list-tag_list base ts id =
    from_list-append base (ts ++ ((codes "collector_id:" ++ id) ∷ []))
    ∙ ap (◌++◌ (from_list base)) (
        from_list-append ts ((codes "collector_id:" ++ id) ∷ [])
        ∙ ap (◌++◌ (from_list ts)) (from_list-id id))

has_tag-id : (id : Bytes) → has_tag (id_tag id) (id_tag id ∷ []) ≡ true
unfolding has_tag
has_tag-id id = ground (arith, equal_refl (codes "collector_id"), equal_refl id)

append_one-ne-nil : {A : Type 0} (xs : List A) (a : A) → xs ++ (a ∷ []) ≢ []
append_one-ne-nil [] a = λ e. cc
append_one-ne-nil (x ∷ xs) a = λ e. cc

tag_list-ne-nil : (base ts : List Bytes) (id : Bytes) → tag_list base id ts ≢ []
tag_list-ne-nil [] ts id = append_one-ne-nil ts (codes "collector_id:" ++ id)
tag_list-ne-nil (b ∷ base) ts id = λ e. cc

-- What every tag list of a request holds.
has_tag-tag_list :
    (t : Tag) (base ts : List Bytes) (id : Bytes)
    → (has_tag t (from_list base) ≡ true → has_tag t (from_list (tag_list base id ts)) ≡ true)
      × (has_tag (id_tag id) (from_list (tag_list base id ts)) ≡ true)
has_tag-tag_list t base ts id =
    let split_list = from_list-tag_list base ts id in
    let rest = from_list ts ++ (id_tag id ∷ []) in
    (
      λ h. rw (split_list, has_tag-append t (from_list base) rest, h) refl,
      ground (
        arith,
        ap (has_tag (id_tag id)) split_list,
        has_tag-append (id_tag id) (from_list base) rest,
        has_tag-append (id_tag id) (from_list ts) (id_tag id ∷ []),
        has_tag-id id,
      ),
    )

module _ (lib : Lib) where
  -- Every call carries the tag, and the tag with the id.
  abbrev pub Tagged : Tag → Bytes → List (Call lib.Float) → Type 0
  Tagged t id [] = Unit {0}
  Tagged t id (c ∷ cs) =
      (has_tag t c.tags ≡ true) × (has_tag (id_tag id) c.tags ≡ true) × Tagged t id cs

  Tagged-append :
      (t : Tag) (id : Bytes) (cs ds : List (Call lib.Float))
      → Tagged t id cs
      → Tagged t id ds
      → Tagged t id (cs ++ ds)
  Tagged-append t id [] ds h k = k
  Tagged-append t id (c ∷ cs) ds (a, b, h) k = (a, b, Tagged-append t id cs ds h k)

  Tagged-map :
      (t : Tag) (id name : Bytes) (ts : List Tag) (rs : List (Recording lib.Float))
      → has_tag t ts ≡ true
      → has_tag (id_tag id) ts ≡ true
      → Tagged t id (map (call_of lib name ts) rs)
  Tagged-map t id name ts [] a b = tt
  Tagged-map t id name ts (r ∷ rs) a b = (a, b, Tagged-map t id name ts rs a b)

  -- Whatever is recorded for a request carries every base tag, and a tag with the request's id.
  pub all_calls-Tagged :
      (t : Tag) (base : List Bytes) (id : Bytes) (ms : List (JsonMetric lib.Float lib.Rest))
      → has_tag t (from_list base) ≡ true
      → Tagged t id (all_calls lib base id ms)
  unfolding all_calls metric_calls
  all_calls-Tagged t base id [] h = tt
  all_calls-Tagged t base id (m ∷ ms) h =
      let (own, named) = has_tag-tag_list t base m.tags id in
      Tagged-append t id _ _
        (Tagged-map t id _ (from_list (tag_list base id m.tags)) (recordings lib m.kind m.value)
          (own h) named)
        (all_calls-Tagged t base id ms h)

  -- The bug: of two metrics whose names hold `|ST` but no `|ST[`, and that agree in all but the name, the
  -- same is recorded, under the same name.
  pub metric_calls_forget :
      (base : List Bytes) (id name second : Bytes) (m : JsonMetric lib.Float lib.Rest)
      → contains name (codes "|ST") ≡ true
      → contains second (codes "|ST") ≡ true
      → contains name stream_open ≡ false
      → contains second stream_open ≡ false
      → metric_calls lib base id (record m { name = name })
        ≡ metric_calls lib base id (record m { name = second })
  unfolding metric_calls
  metric_calls_forget base id name second m a b p q =
      rw
        (
          a,
          b,
          merge_tags_forgets lib.to_lower lib.remove_spaces name second (tag_list base id m.tags) p
              q (tag_list-ne-nil base m.tags id),
        )
        refl
