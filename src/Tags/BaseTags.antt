-- ===== src/Tags/BaseTags.antt =====
-- `GetBaseTags`: the tags that every metric gets, from the configuration.
use circonus_agent.Prelude.{
  ℕ, ◌-◌, ◌<◌, ◌≡◌, refl, ◌≢◌, Bool, true, not, Option, none, some, List, [], ◌∷◌, arith, ◌==◌,
  if◌then◌else◌, length, take,
}
use circonus_agent.Prelude.Bytes.{Bytes, codes, is_empty, equal, split, join}
use circonus_agent.Tags.Parsing.{join-split}
use circonus_agent.Tags.{separator}

-- A slice out of bounds panics.
pub data BaseTags : Type 0 where
  base : List Bytes → BaseTags
  panics : BaseTags

-- `s[len(s)-1:1]`: in bounds if `0 <= len(s)-1 <= 1 <= len(s)`.
unfoldable pub end_slice : Bytes → Option Bytes
end_slice [] = none
end_slice (c ∷ []) = some (c ∷ [])
end_slice (c ∷ d ∷ []) = some []
end_slice (c ∷ d ∷ e ∷ s) = none

abbrev pub without_last : Bytes → Bytes
without_last s = take (length s - 1) s

-- Behind the leading quote: the closing one is to be dropped.
abbrev unquoted : Bytes → Option Bytes → Option Bytes
unquoted s none = none
unquoted s (some end) = some (if equal end (codes "\"") then without_last s else s)

abbrev unquote : Bytes → Option Bytes
unquote [] = some []
unquote (c ∷ s) = if c == b'"' then unquoted s (end_slice s) else some (c ∷ s)

abbrev tags_of_spec : Option Bytes → BaseTags × Option (List Bytes)
tags_of_spec none = (panics, some [])
tags_of_spec (some spec) = (base (split separator spec), some (split separator spec))

-- `streamtags` and `tag_spec` are from the configuration; the last argument and the last result are the
-- variable `baseTags`, which is set to an empty list before anything else.
unfoldable pub get_base_tags : Bool → Bytes → Option (List Bytes) → BaseTags × Option (List Bytes)
unfolding split end_slice equal
get_base_tags streamtags tag_spec (some ts) = (base ts, some ts)
get_base_tags streamtags tag_spec none =
    if not streamtags
    then (base [], some [])
    else if is_empty tag_spec
    then (base [], some [])
    else tags_of_spec (unquote tag_spec)

-- With stream tags on, a specification that is not empty and does not begin with a quote is split at
-- its commas, and the next call gives the same tags, whatever the configuration is by then.
pub get_base_tags_split :
    (c : ℕ) (s later : Bytes) (streamtags : Bool) (ts : List Bytes) (cache : Option (List Bytes))
    → c ≢ b'"'
    → get_base_tags true (c ∷ s) none ≡ (base ts, cache)
    → (join (separator ∷ []) ts ≡ c ∷ s) × (get_base_tags streamtags later cache ≡ (base ts, cache))
unfolding get_base_tags
get_base_tags_split c s later streamtags ts cache n h = ground (arith, join-split separator (c ∷ s))

-- The bug: with stream tags on, a specification in quotes with more than two bytes behind the first
-- quote makes the slice of the last byte panic, and from then on there are no base tags.
pub get_base_tags_quoted_panics :
    (s later : Bytes) (streamtags : Bool)
    → 2 < length s
    → (get_base_tags true (b'"' ∷ s) none).0 ≡ panics
      × ((get_base_tags streamtags later (get_base_tags true (b'"' ∷ s) none).1).0 ≡ base [])
unfolding get_base_tags
get_base_tags_quoted_panics [] later streamtags h = absurd (omega arith)
get_base_tags_quoted_panics (c ∷ []) later streamtags h = absurd (omega arith)
get_base_tags_quoted_panics (c ∷ d ∷ []) later streamtags h = absurd (omega arith)
get_base_tags_quoted_panics (c ∷ d ∷ e ∷ s) later streamtags h = (refl, refl)
