-- ===== src/Prelude/Decimal.antt =====
-- Numbers in base ten, as `fmt` writes them.
use Prim.Native.Nat.{ℕ, zero, suc, ◌+◌, ◌-◌, ◌*◌, ◌/◌, ◌%◌, ◌^◌, ◌<◌}
use mathlib.Core.Bool.{true}
use mathlib.Core.Option.{some}
use mathlib.Core.List.{[], ◌∷◌}
use mathlib.Core.Path.{◌≡◌, refl, ap, ◌∙◌}
use mathlib.Core.Logic.{inl, inr}
use native.Mathlib.Omega.{arith}
use circonus_agent.Prelude.Tests.{ltb, if◌then◌else◌, Bool-cases}
use circonus_agent.Prelude.Int.{ℤ, pos, negsuc}
use circonus_agent.Prelude.Bytes.{Bytes}
use circonus_agent.Prelude.Strconv.{
  is_digit, digits_value, within_bits, positive_within, parse_uint, parse_int,
}

-- The digits of a number in front of a text. The fuel is more than the number, so it does not run out.
unfoldable pub digits_onto : ℕ → ℕ → Bytes → Bytes
digits_onto zero n rest = rest
digits_onto (suc f) n rest =
    let more = digits_onto f (n / 10) ((n % 10 + b'0') ∷ rest) in
    if ltb n 10 then (n + b'0') ∷ rest else more

unfoldable pub show_nat : ℕ → Bytes
unfolding digits_onto
show_nat n = digits_onto (suc n) n []

unfoldable pub show_int : ℤ → Bytes
unfolding show_nat
show_int (pos n) = show_nat n
show_int (negsuc n) = b'-' ∷ show_nat (n + 1)

is_digit-add : (d : ℕ) → d < 10 → is_digit (d + b'0') ≡ true
is_digit-add d h = ground arith

regroup : (n : ℕ) → n / 10 * 10 + (n % 10 + b'0' - b'0') ≡ n
regroup n = omega arith

digit_step :
    (n : ℕ) (rest : Bytes) → digits_value (n / 10) ((n % 10 + b'0') ∷ rest) ≡ digits_value n rest
unfolding digits_value
digit_step n rest =
    rw (is_digit-add (n % 10) (omega arith)) (ap (λ k. digits_value k rest) (regroup n))

digits_value-digits_onto :
    (f n : ℕ) (rest : Bytes) → n < f → digits_value 0 (digits_onto f n rest) ≡ digits_value n rest
unfolding digits_onto
digits_value-digits_onto zero n rest h = absurd (omega arith)
digits_value-digits_onto (suc f) n rest h = elim (Bool-cases (ltb n 10)) [
  | inl small ↦ rw small (unfold digits_value in ground arith)
  | inr large ↦ rw large (
      digits_value-digits_onto f (n / 10) ((n % 10 + b'0') ∷ rest) (ground arith)
      ∙ digit_step n rest)
]

-- A number's digits begin with a digit.
digits_onto_head :
    (f n : ℕ) (c : ℕ) (rest : Bytes)
    → is_digit c ≡ true
    → (d : ℕ) × (s : Bytes) × (digits_onto f n (c ∷ rest) ≡ d ∷ s) × (is_digit d ≡ true)
unfolding digits_onto
digits_onto_head zero n c rest h = (c, rest, refl, h)
digits_onto_head (suc f) n c rest h = elim (Bool-cases (ltb n 10)) [
  | inl small ↦ (n + b'0', c ∷ rest, rw small refl, is_digit-add n (ground arith))
  | inr large ↦
      rw large (
        digits_onto_head f (n / 10) (n % 10 + b'0') (c ∷ rest)
          (is_digit-add (n % 10) (omega arith)))
]

show_nat_head : (n : ℕ) → (d : ℕ) × (s : Bytes) × (show_nat n ≡ d ∷ s) × (is_digit d ≡ true)
unfolding show_nat digits_onto
show_nat_head n = elim (Bool-cases (ltb n 10)) [
  | inl small ↦ (n + b'0', [], rw small refl, is_digit-add n (ground arith))
  | inr large ↦
      rw large
        (digits_onto_head n (n / 10) (n % 10 + b'0') [] (is_digit-add (n % 10) (omega arith)))
]

digits_value-show_nat : (n : ℕ) → digits_value 0 (show_nat n) ≡ some n
unfolding show_nat
digits_value-show_nat n =
    digits_value-digits_onto (suc n) n [] (omega arith) ∙ (unfold digits_value in refl)

-- What is written in base ten is parsed again, within the bits.
pub parse_uint-show_nat :
    (bits n : ℕ) → parse_uint bits (show_nat n) ≡ within_bits (2 ^ bits) (some n)
unfolding parse_uint
parse_uint-show_nat bits n =
    let (d, s, e, h) = show_nat_head n in
    rw (e, parse_uint) (ap (within_bits (2 ^ bits)) (rw e at (digits_value-show_nat n)))

pub parse_int-show_nat :
    (bits n : ℕ)
    → parse_int bits (show_nat n)
      ≡ positive_within (2 ^ (bits - 1)) (within_bits (2 ^ bits) (some n))
unfolding parse_int
parse_int-show_nat bits n =
    let (d, s, e, h) = show_nat_head n in
    rw e (ground (arith, rw e at (parse_uint-show_nat bits n)))
