-- ===== src/Statsd/Written.antt =====
-- Metrics as they are written.

use circonus_agent.Prelude.{
  ℕ, ◌≡◌, refl, ◌∙◌, Bool, true, false, ◌&&◌, ◌||◌, some, [], ◌∷◌, ◌++◌, arith, if◌then◌else◌,
}
use circonus_agent.Prelude.Bytes.{Bytes, codes, is_empty, has_prefix, cut, has_byte}
use circonus_agent.Tags.{is_valid}
use circonus_agent.Statsd.Format.{
  Groups, is_letter, is_rate_byte, span, match_tags, match_sample, match_metric,
}

abbrev pub passes : (ℕ → Bool) → Bytes → Bool
passes p [] = true
passes p (c ∷ s) = p c && passes p s

abbrev pub with_sign : Bytes → Bytes → Bytes
with_sign sign s = if is_empty s then [] else sign ++ s

-- A metric as its groups are written, the parts that are empty left out.
abbrev pub show_metric : Groups → Bytes
show_metric g =
    g.name
    ++ (codes ":"
        ++ (g.value
            ++ (codes "|"
                ++ (g.kind ++ (with_sign (codes "|@") g.sample ++ with_sign (codes "|#") g.tags)))))

-- A name without a colon, a value without a bar, a type of lower-case letters, a rate of digits and
-- dots, and valid tags; only the last two may be empty.
abbrev pub IsMetric : Groups → Type 0
IsMetric g =
    ((is_empty g.name ≡ false) × (has_byte b':' g.name ≡ false))
    × ((is_empty g.value ≡ false) × (has_byte b'|' g.value ≡ false))
    × ((is_empty g.kind ≡ false) × (passes is_letter g.kind ≡ true))
    × (passes is_rate_byte g.sample ≡ true)
    × ((is_empty g.tags || is_valid g.tags) ≡ true)

cut_byte : (b : ℕ) (a s : Bytes) → has_byte b a ≡ false → cut (b ∷ []) (a ++ (b ∷ s)) ≡ some (a, s)
unfolding cut has_byte has_prefix
cut_byte b [] s n = ground arith
cut_byte b (c ∷ a) s n = ground (arith, cut_byte b a s)

starts : (ℕ → Bool) → Bytes → Bool
starts p [] = false
starts p (c ∷ s) = p c

span-append :
    (p : ℕ → Bool) (a s : Bytes) → passes p a ≡ true → starts p s ≡ false → span p (a ++ s) ≡ (a, s)
unfolding span starts
span-append p [] [] h n = refl
span-append p [] (c ∷ s) h n = ground arith
span-append p (c ∷ a) s h n = ground (arith, span-append p a s)

abbrev groups : Bytes → Bytes → Bytes → Bytes → Bytes → Groups
groups name value kind sample tags = record {
  name = name;
  value = value;
  kind = kind;
  sample = sample;
  tags = tags;
}

match_tags_lem :
    (name value kind sample tags : Bytes)
    → (is_empty tags || is_valid tags) ≡ true
    → match_tags (groups name value kind sample []) (with_sign (codes "|#") tags)
      ≡ some (groups name value kind sample tags)
unfolding has_prefix
match_tags_lem name value kind sample [] v = refl
match_tags_lem name value kind sample (c ∷ tags) v = ground arith

starts_sign :
    (p : ℕ → Bool) (c : ℕ) (sign tags : Bytes)
    → p c ≡ false
    → starts p (with_sign (c ∷ sign) tags) ≡ false
unfolding starts
starts_sign p c sign [] h = refl
starts_sign p c sign (d ∷ tags) h = h

starts_signs :
    (p : ℕ → Bool) (sample tags : Bytes)
    → p b'|' ≡ false
    → starts p (with_sign (codes "|@") sample ++ with_sign (codes "|#") tags) ≡ false
starts_signs p [] tags h = starts_sign p b'|' (codes "#") tags h
starts_signs p (c ∷ sample) tags h = unfold starts in h

match_sample_tags :
    (name value kind tags : Bytes)
    → (is_empty tags || is_valid tags) ≡ true
    → match_sample (groups name value kind [] []) (with_sign (codes "|#") tags)
      ≡ match_tags (groups name value kind [] []) (with_sign (codes "|#") tags)
unfolding has_prefix
match_sample_tags name value kind [] v = refl
match_sample_tags name value kind (c ∷ tags) v = refl

match_sample_lem :
    (name value kind sample tags : Bytes)
    → passes is_rate_byte sample ≡ true
    → (is_empty tags || is_valid tags) ≡ true
    → match_sample
        (groups name value kind [] [])
        (with_sign (codes "|@") sample ++ with_sign (codes "|#") tags)
      ≡ some (groups name value kind sample tags)
match_sample_lem name value kind [] tags r v =
    match_sample_tags name value kind tags v ∙ match_tags_lem name value kind [] tags v
match_sample_lem name value kind (c ∷ sample) tags r v =
    unfold has_prefix in
    rw
      (span-append is_rate_byte (c ∷ sample) (with_sign (codes "|#") tags) r
        (starts_sign is_rate_byte b'|' (codes "#") tags refl))
      (match_tags_lem name value kind (c ∷ sample) tags v)

-- A metric that is written in the format is matched, with the groups that it was written from.
pub match_metric-show_metric : (g : Groups) → IsMetric g → match_metric (show_metric g) ≡ some g
unfolding match_metric
match_metric-show_metric g ((ne, nb), (ve, vb), (ke, kl), r, v) =
    rw (cut_byte b':' g.name _ nb, ne)
      (rw (cut_byte b'|' g.value _ vb, ve)
        (rw (span-append is_letter g.kind _ kl (starts_signs is_letter g.sample g.tags refl), ke)
          (match_sample_lem g.name g.value g.kind g.sample g.tags r v)))
