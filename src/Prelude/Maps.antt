-- ===== src/Prelude/Maps.antt =====
-- Go's maps that are poured into one another.
use mathlib.Core.Bool.{Bool, true, false}
use mathlib.Core.Option.{Option, none, some}
use mathlib.Core.List.{List, [], ◌∷◌}
use mathlib.Core.Path.{◌≡◌, refl}
use mathlib.Core.Logic.{◌⊎◌, inl, inr}
use native.Mathlib.Omega.{arith}
use circonus_agent.Prelude.Tests.{Bool-cases}
use circonus_agent.Prelude.Bytes.{Bytes, equal, equal_exact}
use circonus_agent.Prelude.Strconv.{lookup, assign, lookup-assign}

abbrev pub map_some {ℓ κ} : {A : Type ℓ} {B : Type κ} → (A → B) → Option A → Option B
map_some f none = none
map_some f (some a) = some (f a)

module _ {A : Type 0} where
  -- `for k, v := range m { into[k] = v }`.
  unfoldable pub assign_all : List (Bytes × A) → List (Bytes × A) → List (Bytes × A)
  unfolding assign
  assign_all [] into = into
  assign_all ((k, v) ∷ m) into = assign_all m (assign k v into)

  -- A list of keys and values has an entry.
  abbrev pub Holds : Bytes → A → List (Bytes × A) → Type 0
  Holds k v [] = ⊥
  Holds k v ((j, a) ∷ m) = ((j ≡ k) × (a ≡ v)) ⊎ Holds k v m

  lookup-assign_cases :
      (k j : Bytes) (a v : A) (m : List (Bytes × A))
      → lookup j (assign k a m) ≡ some v
      → ((k ≡ j) × (a ≡ v)) ⊎ (lookup j m ≡ some v)
  lookup-assign_cases k j a v m h = elim (Bool-cases (equal k j)) [
    | inl same ↦ inl ((equal_exact k j).0 same, ground (arith, lookup-assign k j a m))
    | inr differs ↦ inr (ground (arith, lookup-assign k j a m))
  ]

  -- What is found afterwards comes from one of the two maps.
  pub lookup-assign_all :
      (j : Bytes) (v : A) (m into : List (Bytes × A))
      → lookup j (assign_all m into) ≡ some v
      → Holds j v m ⊎ (lookup j into ≡ some v)
  unfolding assign_all
  lookup-assign_all j v [] into h = inr h
  lookup-assign_all j v ((k, a) ∷ m) into h = elim (lookup-assign_all j v m (assign k a into) h) [
    | inl later ↦ inl (inr later)
    | inr here ↦ elim (lookup-assign_cases k j a v into here) [
      | inl own ↦ inl (inl own)
      | inr before ↦ inr before
    ]
  ]

  -- Whether a key is in a map.
  abbrev pub is_known : Option A → Bool
  is_known none = false
  is_known (some a) = true

  pub assign_all-keeps :
      (j : Bytes) (m into : List (Bytes × A))
      → is_known (lookup j into) ≡ true
      → is_known (lookup j (assign_all m into)) ≡ true
  unfolding assign_all
  assign_all-keeps j [] into h = h
  assign_all-keeps j ((k, a) ∷ m) into h =
      assign_all-keeps j m (assign k a into) (rw (lookup-assign k j a into) (ground arith))

  pub assign_all-Holds :
      (j : Bytes) (v : A) (m into : List (Bytes × A))
      → Holds j v m
      → is_known (lookup j (assign_all m into)) ≡ true
  unfolding assign_all
  assign_all-Holds j v [] into h = absurd h
  assign_all-Holds j v ((k, a) ∷ m) into (inl (e, _)) =
      assign_all-keeps j m (assign k a into)
        (rw (lookup-assign k j a into, (equal_exact k j).1 e) refl)
  assign_all-Holds j v ((k, a) ∷ m) into (inr later) =
      assign_all-Holds j v m (assign k a into) later
