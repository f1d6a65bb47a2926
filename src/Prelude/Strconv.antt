-- ===== src/Prelude/Strconv.antt =====
-- `strconv.ParseUint` and `strconv.ParseInt` in base ten, and association lists for Go's maps.
use Prim.Native.Nat.{ℕ, zero, suc, ◌+◌, ◌-◌, ◌*◌, ◌^◌}
use mathlib.Core.Bool.{Bool, ◌&&◌}
use mathlib.Core.Option.{Option, none, some}
use mathlib.Core.List.{List, [], ◌∷◌}
use mathlib.Core.Path.{◌≡◌, refl}
use native.Mathlib.Omega.{arith}
use circonus_agent.Prelude.Tests.{ltb, leb, ◌==◌, if◌then◌else◌}
use circonus_agent.Prelude.Int.{ℤ, pos, negsuc}
use circonus_agent.Prelude.Bytes.{Bytes, equal, equal_exact}

abbrev pub is_digit : ℕ → Bool
is_digit c = leb b'0' c && leb c b'9'

unfoldable pub digits_value : ℕ → Bytes → Option ℕ
digits_value acc [] = some acc
digits_value acc (c ∷ s) =
    let rest = digits_value (acc * 10 + (c - b'0')) s in if is_digit c then rest else none

abbrev pub within_bits : ℕ → Option ℕ → Option ℕ
within_bits limit none = none
within_bits limit (some n) = if ltb n limit then some n else none

-- `ParseUint(s, 10, bits)`; `none` is an error.
unfoldable pub parse_uint : ℕ → Bytes → Option ℕ
unfolding digits_value
parse_uint bits [] = none
parse_uint bits (c ∷ s) = within_bits (2 ^ bits) (digits_value 0 (c ∷ s))

abbrev pub negated : ℕ → ℤ
negated zero = pos 0
negated (suc n) = negsuc n

abbrev pub positive_within : ℕ → Option ℕ → Option ℤ
positive_within cutoff none = none
positive_within cutoff (some n) = if ltb n cutoff then some (pos n) else none

abbrev pub negative_within : ℕ → Option ℕ → Option ℤ
negative_within cutoff none = none
negative_within cutoff (some n) = if leb n cutoff then some (negated n) else none

-- `ParseInt(s, 10, bits)`.
unfoldable pub parse_int : ℕ → Bytes → Option ℤ
unfolding parse_uint
parse_int bits [] = none
parse_int bits (c ∷ s) =
    if c == b'+'
    then positive_within (2 ^ (bits - 1)) (parse_uint bits s)
    else if c == b'-'
    then negative_within (2 ^ (bits - 1)) (parse_uint bits s)
    else positive_within (2 ^ (bits - 1)) (parse_uint bits (c ∷ s))

module _ {ℓ} {A : Type ℓ} where
  -- `m[k]`.
  unfoldable pub lookup : Bytes → List (Bytes × A) → Option A
  unfolding equal
  lookup k [] = none
  lookup k ((j, a) ∷ m) = if equal j k then some a else lookup k m

  -- `m[k] = a`.
  unfoldable pub assign : Bytes → A → List (Bytes × A) → List (Bytes × A)
  unfolding equal
  assign k a [] = (k, a) ∷ []
  assign k a ((j, b) ∷ m) = if equal j k then (j, a) ∷ m else (j, b) ∷ assign k a m

  pub lookup-assign :
      (k j : Bytes) (a : A) (m : List (Bytes × A))
      → lookup j (assign k a m) ≡ (if equal k j then some a else lookup j m)
  unfolding lookup assign
  lookup-assign k j a [] = refl
  lookup-assign k j a ((i, b) ∷ m) =
      ground (arith, equal_exact i k, equal_exact i j, equal_exact k j, lookup-assign k j a m)
