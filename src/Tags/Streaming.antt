-- ===== src/Tags/Streaming.antt =====
-- From the encoded tags to the text in a metric's name.
use circonus_agent.Prelude.{
  ℕ, ◌+◌, ◌≤◌, ◌≡◌, refl, sym, ap, ◌∙◌, ◌≢◌, true, false, Option, none, some, List, [], ◌∷◌, ◌++◌,
  map, arith, lt→ltb, length, take, length-take,
}
use circonus_agent.Prelude.Bytes.{Bytes, is_empty, equal_exact, equal_refl, cut, join}
use circonus_agent.Tags.Order.{insert_sorted, sort_strings, member, without, unique}
use circonus_agent.Tags.{
  Tag, delimiter, separator, max_tags, encode_part, clean_category, tag_keys, encode_metric_tags,
  encode_pair, encode_entries, encode_metric_stream_tags,
}
use circonus_agent.Tags.Order.Sorted.{member-sort_strings-unique}

length-without : (k : Bytes) (js : List Bytes) → length (without k js) ≤ length js
unfolding without
length-without k [] = omega arith
length-without k (j ∷ js) = ground (arith, length-without k js)

length-unique : (ks : List Bytes) → length (unique ks) ≤ length ks
unfolding unique
length-unique [] = omega arith
length-unique (k ∷ ks) = omega (arith, length-unique ks, length-without k (unique ks))

length-insert_sorted : (k : Bytes) (js : List Bytes) → length (insert_sorted k js) ≡ length js + 1
unfolding insert_sorted
length-insert_sorted k [] = omega arith
length-insert_sorted k (j ∷ js) = ground (arith, length-insert_sorted k js)

length-sort_strings : (ks : List Bytes) → length (sort_strings ks) ≡ length ks
unfolding sort_strings
length-sort_strings [] = refl
length-sort_strings (k ∷ ks) =
    omega (arith, length-insert_sorted k (sort_strings ks), length-sort_strings ks)

cut-append : (b : ℕ) (x y : Bytes) → cut (b ∷ []) (x ++ (b ∷ y)) ≢ none
unfolding cut
cut-append b [] y = ground arith
cut-append b (c ∷ x) y = ground (arith, cut-append b x y)

is_empty-append : (x y : Bytes) (b : ℕ) → is_empty (x ++ (b ∷ y)) ≡ false
is_empty-append [] y b = refl
is_empty-append (c ∷ x) y b = refl

module _ (to_lower remove_spaces : Bytes → Bytes) where
  length-tag_keys : (ts : List Tag) → length (tag_keys to_lower remove_spaces ts) ≤ length ts
  unfolding tag_keys
  length-tag_keys [] = omega arith
  length-tag_keys (t ∷ ts) = ground (arith, length-tag_keys ts)

  length-encode_metric_tags :
      (ts : List Tag) → length (encode_metric_tags to_lower remove_spaces ts) ≤ max_tags
  unfolding encode_metric_tags
  length-encode_metric_tags ts =
      let ks = tag_keys to_lower remove_spaces (take max_tags ts) in
      omega (
        arith,
        length-sort_strings (unique ks),
        length-unique ks,
        length-tag_keys (take max_tags ts),
        length-take max_tags ts,
      )

  abbrev pub encode_key : Bytes → Bytes
  encode_key k = encode_pair to_lower remove_spaces (cut (delimiter ∷ []) k)

  encode_entries-map :
      (i : ℕ) (ks : List Bytes)
      → i + length ks ≤ max_tags
      → encode_entries to_lower remove_spaces i ks ≡ map encode_key ks
  unfolding encode_entries
  encode_entries-map i [] h = refl
  encode_entries-map i (k ∷ ks) h =
      rw (lt→ltb i max_tags (omega arith))
        (ap (◌∷◌ (encode_key k)) (encode_entries-map (i + 1) ks (omega arith)))

  cut-tag_keys :
      (k : Bytes) (ts : List Tag)
      → member k (tag_keys to_lower remove_spaces ts) ≡ true
      → cut (delimiter ∷ []) k ≢ none
  unfolding tag_keys member
  cut-tag_keys k [] m = absurd (ground arith)
  cut-tag_keys k (t ∷ ts) m =
      let category = clean_category to_lower remove_spaces t.category in
      ground (
        arith,
        cut-tag_keys k ts,
        cut-append delimiter category t.value,
        equal_exact (category ++ (delimiter ∷ t.value)) k,
      )

  encode_pair-some :
      (o : Option (Bytes × Bytes))
      → o ≢ none
      → is_empty (encode_pair to_lower remove_spaces o) ≡ false
  encode_pair-some none n = absurd (n refl)
  encode_pair-some (some (c, v)) n =
      is_empty-append (encode_part c (to_lower c)) (encode_part v v) delimiter

  -- The entries are joined by commas, in the order of the keys.
  pub stream_entries :
      (ts : List Tag)
      → encode_metric_stream_tags to_lower remove_spaces ts
        ≡ join (separator ∷ []) (map encode_key (encode_metric_tags to_lower remove_spaces ts))
  unfolding encode_metric_stream_tags
  stream_entries ts = ap (join (separator ∷ [])) (
      encode_entries-map 0 (encode_metric_tags to_lower remove_spaces ts)
        (omega (arith, length-encode_metric_tags ts)))

  -- A key that is kept has a category and a value.
  pub kept_pair :
      (ts : List Tag) (k : Bytes)
      → member k (encode_metric_tags to_lower remove_spaces ts) ≡ true
      → cut (delimiter ∷ []) k ≢ none
  kept_pair ts k m = cut-tag_keys k (take max_tags ts) (
      sym (member-sort_strings-unique k (tag_keys to_lower remove_spaces (take max_tags ts)))
      ∙ (unfold encode_metric_tags in m))

  nonempty_join :
      (ps : List Bytes) (p : Bytes)
      → is_empty p ≡ false
      → is_empty (join (separator ∷ []) (p ∷ ps)) ≡ false
  unfolding join
  nonempty_join [] p n = n
  nonempty_join (q ∷ ps) [] n = refl
  nonempty_join (q ∷ ps) (c ∷ p) n = refl

  nonempty_keys :
      (ks : List Bytes) (k : Bytes)
      → member k ks ≡ true
      → ((j : Bytes) → member j ks ≡ true → is_empty (encode_key j) ≡ false)
      → is_empty (join (separator ∷ []) (map encode_key ks)) ≡ false
  unfolding member
  nonempty_keys [] k m h = absurd (ground arith)
  nonempty_keys (j ∷ js) k m h =
      nonempty_join (map encode_key js) (encode_key j) (h j (ground (arith, equal_refl j)))

  -- Tags of which the first is valid are encoded into some text.
  pub encode_metric_stream_tags-cons :
      (t : Tag) (ts : List Tag)
      → is_empty (clean_category to_lower remove_spaces t.category) ≡ false
      → is_empty t.value ≡ false
      → is_empty (encode_metric_stream_tags to_lower remove_spaces (t ∷ ts)) ≡ false
  encode_metric_stream_tags-cons t ts c v =
      let key = clean_category to_lower remove_spaces t.category ++ (delimiter ∷ t.value) in
      rw (stream_entries (t ∷ ts)) (
        nonempty_keys (encode_metric_tags to_lower remove_spaces (t ∷ ts)) key
          (unfold encode_metric_tags in
            (member-sort_strings-unique key
                (tag_keys to_lower remove_spaces (take max_tags (t ∷ ts)))
              ∙ first_key))
          (λ j m. encode_pair-some (cut (delimiter ∷ []) j) (kept_pair (t ∷ ts) j m)))
    where
      first_key :
          member
            (clean_category to_lower remove_spaces t.category ++ (delimiter ∷ t.value))
            (tag_keys to_lower remove_spaces (take max_tags (t ∷ ts)))
          ≡ true
      first_key =
          unfold tag_keys member in
          rw (
            c,
            v,
            equal_refl (clean_category to_lower remove_spaces t.category ++ (delimiter ∷ t.value)),
          )
