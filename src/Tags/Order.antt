-- ===== src/Tags/Order.antt =====
-- Strings in the order of Go, `sort.Strings`, and the keys of a map.
pub mod Sorted
use circonus_agent.Prelude.{Bool, true, false, ◌&&◌, ◌||◌, List, [], ◌∷◌, ltb, ◌==◌, if◌then◌else◌}
use circonus_agent.Prelude.Bytes.{Bytes, equal}

-- `s < t` on strings.
unfoldable pub less : Bytes → Bytes → Bool
less [] [] = false
less [] (d ∷ t) = true
less (c ∷ s) [] = false
less (c ∷ s) (d ∷ t) = ltb c d || (c == d && less s t)

unfoldable pub insert_sorted : Bytes → List Bytes → List Bytes
unfolding less
insert_sorted k [] = k ∷ []
insert_sorted k (j ∷ js) = if less j k then j ∷ insert_sorted k js else k ∷ j ∷ js

-- `sort.Strings`: the sorted rearrangement is unique, so any way to sort gives it.
unfoldable pub sort_strings : List Bytes → List Bytes
unfolding insert_sorted
sort_strings [] = []
sort_strings (k ∷ ks) = insert_sorted k (sort_strings ks)

unfoldable pub member : Bytes → List Bytes → Bool
unfolding equal
member k [] = false
member k (j ∷ js) = equal j k || member k js

unfoldable pub without : Bytes → List Bytes → List Bytes
unfolding equal
without k [] = []
without k (j ∷ js) = let rest = without k js in if equal j k then rest else j ∷ rest

-- The keys of a map that is filled from the list, each once.
unfoldable pub unique : List Bytes → List Bytes
unfolding without
unique [] = []
unique (k ∷ ks) = k ∷ without k (unique ks)
