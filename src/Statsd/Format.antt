-- ===== src/Statsd/Format.antt =====
-- internal/statsd/statsd.go: the format of a statsd metric, `metricRegex`.
use circonus_agent.Prelude.{
  ℕ, Bool, ◌&&◌, ◌||◌, Option, none, some, [], ◌∷◌, leb, ◌==◌, if◌then◌else◌, drop,
}
use circonus_agent.Prelude.Bytes.{Bytes, codes, is_empty, has_prefix, cut}
use circonus_agent.Tags.{is_valid}

-- The groups of a match; a group that takes no part is empty.
pub record Groups : Type 0 where
  pub name : Bytes
  pub value : Bytes
  pub kind : Bytes
  pub sample : Bytes
  pub tags : Bytes

abbrev pub is_letter : ℕ → Bool
is_letter c = leb b'a' c && leb c b'z'

abbrev pub is_rate_byte : ℕ → Bool
is_rate_byte c = (leb b'0' c && leb c b'9') || c == b'.'

abbrev pub onto_span : ℕ → Bytes × Bytes → Bytes × Bytes
onto_span c (a, b) = (c ∷ a, b)

-- The longest beginning of bytes that pass a test, and what is left.
unfoldable pub span : (ℕ → Bool) → Bytes → Bytes × Bytes
span p [] = ([], [])
span p (c ∷ s) = let rest = span p s in if p c then onto_span c rest else ([], c ∷ s)

abbrev pub tagged : Groups → Bytes → Option Groups
tagged g tags = if is_valid tags then some (record g { tags = tags }) else none

-- `(?:\|#(?P<tags>…))?$`
abbrev pub match_tags : Groups → Bytes → Option Groups
match_tags g [] = some g
match_tags g (c ∷ s) = if has_prefix (c ∷ s) (codes "|#") then tagged g (drop 2 (c ∷ s)) else none

abbrev pub match_rate : Groups → Bytes × Bytes → Option Groups
match_rate g (sample, s) =
    if is_empty sample then none else match_tags (record g { sample = sample }) s

-- `(?:\|@(?P<sample>[0-9.]+))?` and what follows.
abbrev pub match_sample : Groups → Bytes → Option Groups
match_sample g s =
    if has_prefix s (codes "|@")
    then match_rate g (span is_rate_byte (drop 2 s))
    else match_tags g s

abbrev pub match_kind : Groups → Bytes × Bytes → Option Groups
match_kind g (kind, s) = if is_empty kind then none else match_sample (record g { kind = kind }) s

abbrev pub match_value : Groups → Option (Bytes × Bytes) → Option Groups
match_value g none = none
match_value g (some (value, s)) =
    if is_empty value then none else match_kind (record g { value = value }) (span is_letter s)

abbrev pub no_groups : Groups
no_groups = record { name = []; value = []; kind = []; sample = []; tags = [] }

abbrev pub match_name : Option (Bytes × Bytes) → Option Groups
match_name none = none
match_name (some (name, s)) =
    if is_empty name
    then none
    else match_value (record no_groups { name = name }) (cut (codes "|") s)

-- The match of the whole text. No part can be longer or shorter than here: a name holds no `:`, a value
-- no `|`, and a type or a rate no `|` either, which stands behind it.
unfoldable pub match_metric : Bytes → Option Groups
unfolding is_valid has_prefix cut span
match_metric s = match_name (cut (codes ":") s)
