-- ===== src/Plugins/Meaning.antt =====
-- internal/plugins/main.go: what the name that is given to a run or a flush means.
use mathlib.Core.List.{append_assoc}
use circonus_agent.Prelude.{
  ◌≡◌, refl, sym, ◌∙◌, ◌⊎◌, inl, inr, true, false, [], ◌∷◌, ◌++◌, arith, Bool-cases,
}
use circonus_agent.Prelude.Bytes.{
  Bytes, codes, is_empty, equal, equal_exact, has_prefix, has_prefix-append,
}
use circonus_agent.Plugins.Manager.{name_separator, is_meant, takes_part}

-- A name means all plugins where it is empty, and otherwise the plugin of that name and its instances,
-- whose names have a backtick and the instance behind it.
abbrev pub Means : Bytes → Bytes → Type 0
Means name id = (name ≡ []) ⊎ ((id ≡ name) ⊎ ((inst : Bytes) × (id ≡ name ++ (codes "`" ++ inst))))

has_prefix_split : (s p : Bytes) → has_prefix s p ≡ true → (r : Bytes) × (s ≡ p ++ r)
unfolding has_prefix
has_prefix_split s [] h = (s, refl)
has_prefix_split [] (d ∷ p) h = absurd (ground arith)
has_prefix_split (c ∷ s) (d ∷ p) h =
    let (r, e) = has_prefix_split s p (ground arith) in (r, ground arith)

pub is_meant-Means : (name id : Bytes) → is_meant name id ≡ true → Means name id
unfolding is_meant
is_meant-Means name id h = elim (Bool-cases (equal id name)) [
  | inl same ↦ inr (inl ((equal_exact id name).0 same))
  | inr differs ↦
      let (r, e) = has_prefix_split id (name ++ name_separator) (ground arith) in
      inr (inr (r, e ∙ append_assoc name name_separator r))
]

pub Means-is_meant :
    (name id : Bytes) → is_empty name ≡ false → Means name id → is_meant name id ≡ true
unfolding is_meant
Means-is_meant name id given (inl none_given) = absurd (ground arith)
Means-is_meant name id given (inr (inl same)) = ground (arith, (equal_exact id name).1 same)
Means-is_meant name id given (inr (inr (inst, e))) =
    rw (e, sym (append_assoc name name_separator inst))
      (ground (arith, has_prefix-append (name ++ name_separator) inst))

pub takes_part-Means : (name id : Bytes) → takes_part name id ≡ true → Means name id
unfolding takes_part
takes_part-Means [] id h = inl refl
takes_part-Means (c ∷ name) id h = is_meant-Means (c ∷ name) id h

pub Means-takes_part : (name id : Bytes) → Means name id → takes_part name id ≡ true
unfolding takes_part
Means-takes_part [] id h = refl
Means-takes_part (c ∷ name) id h = Means-is_meant (c ∷ name) id refl h

pub not_Means-takes_part : (name id : Bytes) → (Means name id → ⊥) → takes_part name id ≡ false
not_Means-takes_part name id h = elim (Bool-cases (takes_part name id)) [
  | inl taking ↦ absurd (h (takes_part-Means name id taking))
  | inr leaving ↦ leaving
]

pub Means-cases : (name id : Bytes) → Means name id ⊎ (Means name id → ⊥)
Means-cases name id = elim (Bool-cases (takes_part name id)) [
  | inl taking ↦ inl (takes_part-Means name id taking)
  | inr leaving ↦ inr (λ means. absurd (ground (arith, Means-takes_part name id means)))
]
