-- ===== src/Tags/Joined.antt =====
-- Lists of tags one behind the other.
use circonus_agent.Prelude.{◌≡◌, refl, inl, inr, ◌||◌, List, [], ◌∷◌, ◌++◌, arith, Option-cases}
use circonus_agent.Prelude.Bytes.{Bytes, cut}
use circonus_agent.Tags.{Tag, delimiter, from_list}
use circonus_agent.Tags.Encoding.{has_tag}

pub from_list-append : (xs ys : List Bytes) → from_list (xs ++ ys) ≡ from_list xs ++ from_list ys
unfolding from_list
from_list-append [] ys = refl
from_list-append (x ∷ xs) ys = elim (Option-cases (cut (delimiter ∷ []) x)) [
  | inl e ↦ ground (arith, from_list-append xs ys)
  | inr (p, e) ↦ ground (arith, from_list-append xs ys)
]

pub has_tag-append :
    (t : Tag) (ts us : List Tag) → has_tag t (ts ++ us) ≡ has_tag t ts || has_tag t us
unfolding has_tag
has_tag-append t [] us = refl
has_tag-append t (u ∷ ts) us = ground (arith, has_tag-append t ts us)
