-- ===== src/Statsd/Destination.antt =====
-- internal/statsd/metrics.go: whether a metric goes to the host's check or to the group's.

use circonus_agent.Prelude.{
  ℕ, ◌≡◌, refl, ◌↔◌, true, false, not, ◌&&◌, Option, none, some, [], ◌∷◌, ◌++◌, arith,
  if◌then◌else◌, length, drop,
}
use circonus_agent.Prelude.Bytes.{Bytes, is_empty, has_prefix, cut}

pub data Destination : Type 0 where
  host group ignore : Destination

-- `strings.Replace(s, old, "", 1)` for an `old` that is not empty.
abbrev without_cut : Bytes → Option (Bytes × Bytes) → Bytes
without_cut s none = s
without_cut s (some (a, b)) = a ++ b

unfoldable pub remove_first : Bytes → Bytes → Bytes
unfolding cut
remove_first old s = without_cut s (cut old s)

-- `getMetricDestination`, with the two prefixes of the server. (The last return of the source cannot be
-- reached: the four tests before it cover all cases.)
unfoldable pub get_metric_destination : Bytes → Bytes → Bytes → Destination × Bytes
unfolding has_prefix remove_first
get_metric_destination host_prefix group_prefix name =
    if is_empty host_prefix && is_empty group_prefix
    then (host, name)
    else if not (is_empty host_prefix) && not (is_empty group_prefix)
    then if has_prefix name host_prefix
      then (host, remove_first host_prefix name)
      else if has_prefix name group_prefix
      then (group, remove_first group_prefix name)
      else (ignore, name)
    else if is_empty host_prefix
    then if has_prefix name group_prefix
      then (group, remove_first group_prefix name)
      else (host, name)
    else if has_prefix name host_prefix
    then (host, remove_first host_prefix name)
    else (group, name)

take_prefix : (s p : Bytes) → has_prefix s p ≡ true → p ++ drop (length p) s ≡ s
unfolding has_prefix
take_prefix s [] h = refl
take_prefix [] (d ∷ p) h = absurd (ground arith)
take_prefix (c ∷ s) (d ∷ p) h = ground (arith, take_prefix s p)

no_prefix : (d : ℕ) (p : Bytes) → has_prefix [] (d ∷ p) ≡ false
unfolding has_prefix
no_prefix d p = refl

-- The first occurrence of a prefix is the prefix itself.
append-remove_first :
    (p s : Bytes) → is_empty p ≡ false → has_prefix s p ≡ true → p ++ remove_first p s ≡ s
unfolding remove_first
append-remove_first [] [] n h = absurd (ground arith)
append-remove_first (d ∷ p) [] n h = absurd (ground (arith, no_prefix d p))
append-remove_first p (c ∷ s) n h = rw (h, cut) (take_prefix (c ∷ s) p h)

-- Where a metric goes, and under which name: its destination's prefix put back in front gives the name
-- that came in. It goes to the group only without the host's prefix, and is ignored exactly where both
-- prefixes are set and neither stands in front of it.
pub get_metric_destination_routes :
    (host_prefix group_prefix name : Bytes)
    → let (d, n) = get_metric_destination host_prefix group_prefix name in
      (d ≡ host → host_prefix ++ n ≡ name)
      × (d ≡ group
          → (group_prefix ++ n ≡ name)
            × (is_empty host_prefix ≡ false → has_prefix name host_prefix ≡ false))
      × ((d ≡ ignore) ↔ (
          (is_empty host_prefix ≡ false)
          × (is_empty group_prefix ≡ false)
          × (has_prefix name host_prefix ≡ false)
          × (has_prefix name group_prefix ≡ false)))
      × (d ≡ ignore → n ≡ name)
unfolding get_metric_destination
get_metric_destination_routes [] [] name = ground arith
get_metric_destination_routes [] (g ∷ gs) name =
    ground (arith, append-remove_first (g ∷ gs) name refl)
get_metric_destination_routes (h ∷ hs) [] name =
    ground (arith, append-remove_first (h ∷ hs) name refl)
get_metric_destination_routes (h ∷ hs) (g ∷ gs) name =
    ground (arith, append-remove_first (g ∷ gs) name refl, append-remove_first (h ∷ hs) name refl)
