-- ===== src/Tags/Order/Sorted.antt =====
-- The sorted keys of a map are determined by which keys there are.
use circonus_agent.Prelude.{
  ◌≡◌, refl, sym, ◌∙◌, inl, inr, true, false, not, ◌&&◌, ◌||◌, List, [], ◌∷◌, arith, Bool-cases,
}
use circonus_agent.Prelude.Bytes.{Bytes, equal, equal_exact, equal_refl}
use circonus_agent.Tags.Order.{less, insert_sorted, sort_strings, member, without, unique}

less_irrefl : (s : Bytes) → less s s ≡ false
unfolding less
less_irrefl [] = refl
less_irrefl (c ∷ s) = ground (arith, less_irrefl s)

less_trans : (s t u : Bytes) → less s t ≡ true → less t u ≡ true → less s u ≡ true
unfolding less
less_trans [] [] u p q = absurd (ground arith)
less_trans [] (d ∷ t) [] p q = absurd (ground arith)
less_trans [] (d ∷ t) (e ∷ u) p q = refl
less_trans (c ∷ s) [] u p q = absurd (ground arith)
less_trans (c ∷ s) (d ∷ t) [] p q = absurd (ground arith)
less_trans (c ∷ s) (d ∷ t) (e ∷ u) p q = ground (arith, less_trans s t u)

less-total : (s t : Bytes) → less s t ≡ false → less t s ≡ false → s ≡ t
unfolding less
less-total [] [] p q = refl
less-total [] (d ∷ t) p q = absurd (ground arith)
less-total (c ∷ s) [] p q = absurd (ground arith)
less-total (c ∷ s) (d ∷ t) p q = ground (arith, less-total s t)

member-insert_sorted :
    (x k : Bytes) (js : List Bytes) → member x (insert_sorted k js) ≡ equal k x || member x js
unfolding member insert_sorted
member-insert_sorted x k [] = refl
member-insert_sorted x k (j ∷ js) = ground (arith, member-insert_sorted x k js)

member-sort_strings : (x : Bytes) (ks : List Bytes) → member x (sort_strings ks) ≡ member x ks
unfolding member sort_strings
member-sort_strings x [] = refl
member-sort_strings x (k ∷ ks) =
    ground (arith, member-insert_sorted x k (sort_strings ks), member-sort_strings x ks)

member-without :
    (x k : Bytes) (js : List Bytes) → member x (without k js) ≡ not (equal k x) && member x js
unfolding member without
member-without x k [] = ground arith
member-without x k (j ∷ js) =
    ground (arith, member-without x k js, equal_exact j k, equal_exact j x, equal_exact k x)

member-unique : (x : Bytes) (ks : List Bytes) → member x (unique ks) ≡ member x ks
unfolding member unique
member-unique x [] = refl
member-unique x (k ∷ ks) = ground (arith, member-without x k (unique ks), member-unique x ks)

-- Each string is below all that follow.
abbrev Below : Bytes → List Bytes → Type 0
Below k js = (x : Bytes) → member x js ≡ true → less k x ≡ true

abbrev pub IsIncreasing : List Bytes → Type 0
IsIncreasing [] = Unit {0}
IsIncreasing (k ∷ ks) = Below k ks × IsIncreasing ks

Below-insert_sorted :
    (k j : Bytes) (js : List Bytes) → less j k ≡ true → Below j js → Below j (insert_sorted k js)
Below-insert_sorted k j js lt b x m =
    ground (arith, member-insert_sorted x k js, equal_exact k x, b x)

Below-cons :
    (k j : Bytes) (js : List Bytes)
    → less j k ≡ false
    → member k (j ∷ js) ≡ false
    → Below j js
    → Below k (j ∷ js)
unfolding member
Below-cons k j js ge n b x m =
    ground (arith, equal_exact j k, equal_exact j x, less-total j k, less_trans k j x, b x)

insert_sorted-IsIncreasing :
    (k : Bytes) (js : List Bytes)
    → member k js ≡ false
    → IsIncreasing js
    → IsIncreasing (insert_sorted k js)
unfolding insert_sorted
insert_sorted-IsIncreasing k [] n h = ((λ x m. absurd (unfold member in ground arith)), tt)
insert_sorted-IsIncreasing k (j ∷ js) n (b, h) = elim (Bool-cases (less j k)) [
  | inl lt ↦ rw lt (
    Below-insert_sorted k j js lt b,
    insert_sorted-IsIncreasing k js (unfold member in ground arith) h,
  )
  | inr ge ↦ rw ge (Below-cons k j js ge n b, (b, h))
]

abbrev Distinct : List Bytes → Type 0
Distinct [] = Unit {0}
Distinct (k ∷ ks) = (member k ks ≡ false) × Distinct ks

without-Distinct : (k : Bytes) (js : List Bytes) → Distinct js → Distinct (without k js)
unfolding without
without-Distinct k [] d = tt
without-Distinct k (j ∷ js) (n, d) = ground (arith, member-without j k js, without-Distinct k js d)

unique-Distinct : (ks : List Bytes) → Distinct (unique ks)
unfolding unique
unique-Distinct [] = tt
unique-Distinct (k ∷ ks) = (
  ground (arith, member-without k k (unique ks), equal_refl k),
  without-Distinct k (unique ks) (unique-Distinct ks),
)

sort_strings-IsIncreasing : (ks : List Bytes) → Distinct ks → IsIncreasing (sort_strings ks)
unfolding sort_strings
sort_strings-IsIncreasing [] d = tt
sort_strings-IsIncreasing (k ∷ ks) (n, d) =
    insert_sorted-IsIncreasing k (sort_strings ks) (member-sort_strings k ks ∙ n)
      (sort_strings-IsIncreasing ks d)

-- Two increasing lists with the same members are the same.
IsIncreasing-ext :
    (xs ys : List Bytes)
    → IsIncreasing xs
    → IsIncreasing ys
    → ((k : Bytes) → member k xs ≡ member k ys)
    → xs ≡ ys
unfolding member
IsIncreasing-ext [] [] f g h = refl
IsIncreasing-ext [] (y ∷ ys) f g h = absurd (ground (arith, h y, equal_refl y))
IsIncreasing-ext (x ∷ xs) [] f g h = absurd (ground (arith, h x, equal_refl x))
IsIncreasing-ext (x ∷ xs) (y ∷ ys) (b, f) (c, g) h =
    ground (arith, same_head, IsIncreasing-ext xs ys f g same_tail)
  where
    same_head : x ≡ y
    same_head = ground (
      arith,
      h x,
      h y,
      equal_refl x,
      equal_refl y,
      equal_exact x y,
      equal_exact y x,
      b y,
      c x,
      less_trans x y x,
      less_irrefl x,
    )

    same_tail : (k : Bytes) → member k xs ≡ member k ys
    same_tail k =
        ground (arith, same_head, h k, b k, c k, less_irrefl k, equal_exact x k, equal_exact y k)

-- Sorting the keys of a map gives an increasing list.
pub sort_strings-unique-IsIncreasing : (ks : List Bytes) → IsIncreasing (sort_strings (unique ks))
sort_strings-unique-IsIncreasing ks = sort_strings-IsIncreasing (unique ks) (unique-Distinct ks)

pub member-sort_strings-unique :
    (k : Bytes) (ks : List Bytes) → member k (sort_strings (unique ks)) ≡ member k ks
member-sort_strings-unique k ks = member-sort_strings k (unique ks) ∙ member-unique k ks

-- The sorted keys depend only on which keys there are.
pub sort_strings-unique-ext :
    (ks js : List Bytes)
    → ((k : Bytes) → member k ks ≡ member k js)
    → sort_strings (unique ks) ≡ sort_strings (unique js)
sort_strings-unique-ext ks js h =
    IsIncreasing-ext (sort_strings (unique ks)) (sort_strings (unique js))
      (sort_strings-unique-IsIncreasing ks) (sort_strings-unique-IsIncreasing js)
      (λ k. member-sort_strings-unique k ks ∙ (h k ∙ sym (member-sort_strings-unique k js)))
