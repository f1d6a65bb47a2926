-- ===== src/Prelude/Bytes.antt =====
-- Go strings and byte slices as lists of bytes, with what the program uses of `strings`.
use Prim.Native.Nat.{ℕ}
use Prim.Native.Char.{code}
use Prim.Native.String.{String}
use mathlib.Core.Path.{◌≡◌, refl}
use mathlib.Core.Logic.{◌↔◌}
use mathlib.Core.Bool.{Bool, true, false, ◌&&◌, ◌||◌}
use mathlib.Core.Option.{Option, none, some}
use mathlib.Core.List.{List, [], ◌∷◌, ◌++◌}
use native.Mathlib.Omega.{arith}
use circonus_agent.Prelude.Tests.{◌==◌, if◌then◌else◌}
use circonus_agent.Prelude.Lists.{length, drop}

abbrev pub Bytes : Type 0
Bytes = List ℕ

-- The bytes of an ASCII literal.
abbrev pub codes : String → Bytes
codes String.[] = []
codes (String.◌∷◌ c s) = code c ∷ codes s

-- `s == ""`.
abbrev pub is_empty : Bytes → Bool
is_empty [] = true
is_empty (_ ∷ _) = false

-- `s == t` on strings.
unfoldable pub equal : Bytes → Bytes → Bool
equal [] t = is_empty t
equal (c ∷ s) [] = false
equal (c ∷ s) (d ∷ t) = c == d && equal s t

pub equal_exact : (s t : Bytes) → (equal s t ≡ true) ↔ (s ≡ t)
unfolding equal
equal_exact [] [] = ground arith
equal_exact [] (d ∷ t) = ground arith
equal_exact (c ∷ s) [] = ground arith
equal_exact (c ∷ s) (d ∷ t) = ground (arith, equal_exact s t)

pub equal_refl : (s : Bytes) → equal s s ≡ true
equal_refl s = (equal_exact s s).1 refl

-- `strings.HasPrefix(s, p)`.
unfoldable pub has_prefix : Bytes → Bytes → Bool
has_prefix s [] = true
has_prefix [] (_ ∷ _) = false
has_prefix (c ∷ s) (d ∷ p) = c == d && has_prefix s p

-- `strings.Contains(s, p)`.
unfoldable pub contains : Bytes → Bytes → Bool
unfolding has_prefix
contains [] p = has_prefix [] p
contains (c ∷ s) p = has_prefix (c ∷ s) p || contains s p

abbrev pub first_onto : ℕ → Option (Bytes × Bytes) → Option (Bytes × Bytes)
first_onto c none = none
first_onto c (some (a, b)) = some (c ∷ a, b)

-- `strings.SplitN(s, sep, 2)` for a separator that is not empty: the two parts around the first
-- occurrence, or `none` where the slice would have one element.
unfoldable pub cut : Bytes → Bytes → Option (Bytes × Bytes)
unfolding has_prefix
cut sep [] = none
cut sep (c ∷ s) =
    let rest = first_onto c (cut sep s) in
    if has_prefix (c ∷ s) sep then some ([], drop (length sep) (c ∷ s)) else rest

abbrev pub onto_first : ℕ → List Bytes → List Bytes
onto_first c [] = (c ∷ []) ∷ []
onto_first c (p ∷ ps) = (c ∷ p) ∷ ps

-- `strings.Split(s, sep)` for a separator of one byte.
unfoldable pub split : ℕ → Bytes → List Bytes
split sep [] = [] ∷ []
split sep (c ∷ s) = let rest = split sep s in if c == sep then [] ∷ rest else onto_first c rest

-- `strings.Join(ps, sep)`.
unfoldable pub join : Bytes → List Bytes → Bytes
join sep [] = []
join sep (p ∷ []) = p
join sep (p ∷ q ∷ ps) = p ++ (sep ++ join sep (q ∷ ps))

-- `strings.TrimSuffix(s, suffix)` for a suffix of one byte.
unfoldable pub trim_suffix : Bytes → ℕ → Bytes
trim_suffix [] b = []
trim_suffix (c ∷ []) b = if c == b then [] else c ∷ []
trim_suffix (c ∷ d ∷ s) b = c ∷ trim_suffix (d ∷ s) b

-- Whether a byte occurs.
unfoldable pub has_byte : ℕ → Bytes → Bool
has_byte b [] = false
has_byte b (c ∷ s) = c == b || has_byte b s

pub has_byte-append : (b : ℕ) (s t : Bytes) → has_byte b (s ++ t) ≡ has_byte b s || has_byte b t
unfolding has_byte
has_byte-append b [] t = refl
has_byte-append b (c ∷ s) t = ground (arith, has_byte-append b s t)

pub has_prefix-append : (p s : Bytes) → has_prefix (p ++ s) p ≡ true
unfolding has_prefix
has_prefix-append [] [] = refl
has_prefix-append [] (_ ∷ _) = refl
has_prefix-append (c ∷ p) s = ground (arith, has_prefix-append p s)

pub contains_middle : (a p b : Bytes) → contains (a ++ (p ++ b)) p ≡ true
unfolding contains
contains_middle [] [] [] = refl
contains_middle [] [] (_ ∷ _) = refl
contains_middle [] (c ∷ p) b = ground (arith, has_prefix-append (c ∷ p) b)
contains_middle (c ∷ a) p b = ground (arith, contains_middle a p b)
