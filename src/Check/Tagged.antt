-- ===== src/Check/Tagged.antt =====
-- The tags of the host among those of a check bundle.
use circonus_agent.Prelude.{
  ◌≡◌, refl, sym, ◌⊎◌, inl, inr, Bool, false, List, [], ◌∷◌, arith, Bool-cases,
}
use circonus_agent.Prelude.Bytes.{Bytes, has_prefix}
use circonus_agent.Check.Bundle.{category_of, put_tag, put_tags}

abbrev pub InTags : Bytes → List Bytes → Type 0
InTags t [] = ⊥
InTags t (u ∷ us) = (u ≡ t) ⊎ InTags t us

-- A tag is of none of the categories of some tags.
abbrev pub IsOther : Bytes → List Bytes → Type 0
IsOther t [] = Unit {0}
IsOther t (tag ∷ tags) = (has_prefix t (category_of tag) ≡ false) × IsOther t tags

-- Of tags that stand in a list, none is of the category of a later one.
abbrev pub AreDistinct : List Bytes → Type 0
AreDistinct [] = Unit {0}
AreDistinct (tag ∷ tags) = IsOther tag tags × AreDistinct tags

put_tag-keeps :
    (tag t : Bytes) (ts : List Bytes)
    → InTags t ts
    → has_prefix t (category_of tag) ≡ false
    → InTags t (put_tag tag ts)
unfolding put_tag
put_tag-keeps tag t [] mem h = absurd mem
put_tag-keeps tag t (u ∷ ts) (inl same) h = elim (Bool-cases (has_prefix u (category_of tag))) [
  | inl own ↦ absurd (ground (arith, own, rw (sym same) at h))
  | inr differs ↦ rw differs (inl same)
]
put_tag-keeps tag t (u ∷ ts) (inr later) h = elim (Bool-cases (has_prefix u (category_of tag))) [
  | inl own ↦ rw own (inr later)
  | inr differs ↦ rw differs (inr (put_tag-keeps tag t ts later h))
]

put_tag-InTags : (tag : Bytes) (ts : List Bytes) → InTags tag (put_tag tag ts)
unfolding put_tag
put_tag-InTags tag [] = inl refl
put_tag-InTags tag (u ∷ ts) = elim (Bool-cases (has_prefix u (category_of tag))) [
  | inl own ↦ rw own (inl refl)
  | inr differs ↦ rw differs (inr (put_tag-InTags tag ts))
]

-- A tag of a bundle stays if none of the host's tags has its category.
pub put_tags-keeps :
    (tags : List Bytes) (s : Bool × List Bytes) (t : Bytes)
    → InTags t s.1
    → IsOther t tags
    → InTags t (put_tags tags s).1
unfolding put_tags
put_tags-keeps [] s t mem h = mem
put_tags-keeps (tag ∷ tags) s t mem (own, h) =
    put_tags-keeps tags _ t (put_tag-keeps tag t s.1 mem own) h

-- Every tag of the host is among the tags afterwards, if none is of the category of a later one.
pub put_tags-InTags :
    (tags : List Bytes) (s : Bool × List Bytes) (t : Bytes)
    → AreDistinct tags
    → InTags t tags
    → InTags t (put_tags tags s).1
unfolding put_tags
put_tags-InTags [] s t h mem = absurd mem
put_tags-InTags (tag ∷ tags) s t (own, h) (inl same) =
    rw (sym same) (put_tags-keeps tags _ tag (put_tag-InTags tag s.1) own)
put_tags-InTags (tag ∷ tags) s t (own, h) (inr later) = put_tags-InTags tags _ t h later
