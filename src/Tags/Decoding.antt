-- ===== src/Tags/Decoding.antt =====
-- What an encoded tag says: base64 read back.
use circonus_agent.Prelude.{
  ℕ, ◌+◌, ◌-◌, ◌*◌, ◌/◌, ◌%◌, ◌<◌, ◌≡◌, refl, ap, false, [], ◌∷◌, ◌++◌, arith, ltb, ◌==◌,
  if◌then◌else◌,
}
use circonus_agent.Prelude.Bytes.{Bytes, codes}
use circonus_agent.Tags.Base64.{letter, encode_to_string}

-- All are bytes.
abbrev pub AreBytes : Bytes → Type 0
AreBytes [] = Unit {0}
AreBytes (c ∷ s) = (c < 256) × AreBytes s

abbrev unletter : ℕ → ℕ
unletter c =
    if ltb 96 c
    then c - 97 + 26
    else if ltb 64 c
    then c - 65
    else if ltb 47 c
    then c - 48 + 52
    else if c == 43
    then 62
    else 63

-- The bytes of a text in base64, up to what is no group of four.
unfoldable pub decode_string : Bytes → Bytes
decode_string (w ∷ x ∷ y ∷ z ∷ s) =
    let rest = decode_string s in
    let first = unletter w * 4 + unletter x / 16 in
    let second = unletter x % 16 * 16 + unletter y / 4 in
    let third = unletter y % 4 * 64 + unletter z in
    if y == b'='
    then first ∷ []
    else if z == b'='
    then first ∷ second ∷ []
    else first ∷ second ∷ third ∷ rest
decode_string _ = []

unletter-letter : (i : ℕ) → i < 64 → unletter (letter i) ≡ i
unletter-letter i h = ground arith

letter_pad : (i : ℕ) → i < 64 → (letter i == b'=') ≡ false
letter_pad i h = ground arith

ap2 : {a b : ℕ} {s t : Bytes} → a ≡ b → s ≡ t → a ∷ s ≡ b ∷ t
ap2 e f = rw (e, f)

first_byte : (a b : ℕ) → a < 256 → b < 256 → a / 4 * 4 + (a % 4 * 16 + b / 16) / 16 ≡ a
first_byte a b ha hb = omega (arith, ha, hb)

second_byte :
    (a b c : ℕ)
    → b < 256
    → c < 256
    → (a % 4 * 16 + b / 16) % 16 * 16 + (b % 16 * 4 + c / 64) / 4 ≡ b
second_byte a b c hb hc = omega (arith, hb, hc)

pub decode_string-encode_to_string :
    (s : Bytes) → AreBytes s → decode_string (encode_to_string s ++ codes "\"") ≡ s
unfolding decode_string encode_to_string
decode_string-encode_to_string [] h = refl
decode_string-encode_to_string (a ∷ []) (ha, h) =
    rw (unletter-letter (a / 4) (omega arith), unletter-letter (a % 4 * 16) (omega arith))
      (ap (λ n. n ∷ []) (omega arith))
decode_string-encode_to_string (a ∷ b ∷ []) (ha, (hb, h)) =
    rw
      (
        letter_pad (b % 16 * 4) (omega arith),
        unletter-letter (a / 4) (omega arith),
        unletter-letter (a % 4 * 16 + b / 16) (omega arith),
        unletter-letter (b % 16 * 4) (omega arith),
      )
      (ap2 (first_byte a b ha hb) (ap2 (omega (arith, hb)) refl))
decode_string-encode_to_string (a ∷ b ∷ c ∷ s) (ha, (hb, (hc, h))) =
    rw
      (
        letter_pad (b % 16 * 4 + c / 64) (omega arith),
        letter_pad (c % 64) (omega arith),
        unletter-letter (a / 4) (omega arith),
        unletter-letter (a % 4 * 16 + b / 16) (omega arith),
        unletter-letter (b % 16 * 4 + c / 64) (omega arith),
        unletter-letter (c % 64) (omega arith),
        decode_string-encode_to_string s h,
      )
      (ap2 (first_byte a b ha hb) (ap2 (second_byte a b c hb hc) (ap2 (omega (arith, hc)) refl)))
