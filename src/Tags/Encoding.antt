-- ===== src/Tags/Encoding.antt =====
-- Encoded tags: what they depend on, and that none is lost.
use circonus_agent.Prelude.{
  ◌≤◌, ◌≡◌, sym, ◌∙◌, inl, inr, Bool, true, false, ◌&&◌, ◌||◌, List, [], ◌∷◌, arith, Bool-cases,
  length, take-all,
}
use circonus_agent.Prelude.Bytes.{Bytes, equal, equal_exact, equal_refl}
use circonus_agent.Tags.Order.{member}
use circonus_agent.Tags.{Tag, max_tags, tag_keys, encode_metric_tags}
use circonus_agent.Tags.Order.Sorted.{
  sort_strings-unique-IsIncreasing, sort_strings-unique-ext, IsIncreasing,
}

abbrev same_tag : Tag → Tag → Bool
same_tag t u = equal t.category u.category && equal t.value u.value

-- Whether a tag stands in a list.
unfoldable pub has_tag : Tag → List Tag → Bool
has_tag t [] = false
has_tag t (u ∷ us) = same_tag u t || has_tag t us

Bool-ext : (a b : Bool) → (a ≡ true → b ≡ true) → (b ≡ true → a ≡ true) → a ≡ b
Bool-ext a b p q = ground arith

module _ (to_lower remove_spaces : Bytes → Bytes) where
  -- A key of the list comes from one of its tags.
  key_source :
      (k : Bytes) (ts : List Tag)
      → member k (tag_keys to_lower remove_spaces ts) ≡ true
      → (t : Tag) × (has_tag t ts ≡ true)
        × (member k (tag_keys to_lower remove_spaces (t ∷ [])) ≡ true)
  unfolding tag_keys member has_tag
  key_source k [] m = absurd (ground arith)
  key_source k (t ∷ ts) m =
      elim (Bool-cases (member k (tag_keys to_lower remove_spaces (t ∷ [])))) [
        | inl here ↦ (t, ground (arith, equal_refl t.category, equal_refl t.value), here)
        | inr later ↦ let (u, h, s) = key_source k ts (ground arith) in (u, ground arith, s)
      ]

  key_kept :
      (k : Bytes) (t : Tag) (ts : List Tag)
      → has_tag t ts ≡ true
      → member k (tag_keys to_lower remove_spaces (t ∷ [])) ≡ true
      → member k (tag_keys to_lower remove_spaces ts) ≡ true
  unfolding tag_keys member has_tag
  key_kept k t [] h m = absurd (ground arith)
  key_kept k t (u ∷ us) h m =
      ground
        (arith, key_kept k t us, equal_exact u.category t.category, equal_exact u.value t.value)

  same_keys :
      (ts us : List Tag)
      → ((t : Tag) → has_tag t ts ≡ has_tag t us)
      → (k : Bytes) → member k (tag_keys to_lower remove_spaces ts) ≡ true
      → member k (tag_keys to_lower remove_spaces us) ≡ true
  same_keys ts us h k m =
      let (t, at, own) = key_source k ts m in key_kept k t us (sym (h t) ∙ at) own

  -- The encoded tags depend only on which tags there are, not on their order or on repetitions, as long
  -- as there are not more than `MAX_TAGS`; and they come out sorted, each once.
  pub encode_metric_tags_canonical :
      (ts us : List Tag)
      → length ts ≤ max_tags
      → length us ≤ max_tags
      → ((t : Tag) → has_tag t ts ≡ has_tag t us)
      → (encode_metric_tags to_lower remove_spaces ts
          ≡ encode_metric_tags to_lower remove_spaces us)
        × IsIncreasing (encode_metric_tags to_lower remove_spaces ts)
  unfolding encode_metric_tags
  encode_metric_tags_canonical ts us l m h =
      rw (take-all max_tags ts l, take-all max_tags us m)
        (
          sort_strings-unique-ext (tag_keys to_lower remove_spaces ts)
              (tag_keys to_lower remove_spaces us)
              (λ k. Bool-ext _ _ (same_keys ts us h k) (same_keys us ts (λ t. sym (h t)) k)),
          sort_strings-unique-IsIncreasing (tag_keys to_lower remove_spaces ts),
        )
