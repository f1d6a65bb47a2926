-- ===== src/Tags/Lossless.antt =====
-- What an entry of the stream tags says of the tag that it was made of.
use circonus_agent.Prelude.{◌≡◌, ◌⊎◌, true, ◌∷◌, ◌++◌}
use circonus_agent.Prelude.Bytes.{Bytes, codes, has_prefix}
use circonus_agent.Tags.{delimiter}
use circonus_agent.Tags.Decoding.{decode_string}

-- A part of an entry is the text, if that is encoded already, and else `b"`, the lower-case or given text
-- in base64, and a quote.
abbrev pub Encodes : Bytes → Bytes → Bytes → Type 0
Encodes s lowered e =
    ((has_prefix s (codes "b\"") ≡ true) × (e ≡ s))
    ⊎ ((w : Bytes) × (e ≡ codes "b\"" ++ w) × (decode_string w ≡ lowered))

module _ (to_lower remove_spaces : Bytes → Bytes) where
  -- An entry that gives the category and the value of a key back, the category in lower case.
  abbrev pub Recovers : Bytes → Bytes → Type 0
  Recovers k e =
      (c : Bytes) × (v : Bytes) × (ec : Bytes) × (ev : Bytes) × (k ≡ c ++ (delimiter ∷ v))
      × (e ≡ ec ++ (delimiter ∷ ev))
      × Encodes c (to_lower c) ec
      × Encodes v v ev
