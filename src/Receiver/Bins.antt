-- ===== src/Receiver/Bins.antt =====
-- Histograms that are written out bin by bin.
use mathlib.Core.List.{append_assoc, append-nil}
use circonus_agent.Prelude.{
  ℕ, ◌≡◌, refl, sym, ap, ◌∙◌, Bool, true, false, some, List, [], ◌∷◌, ◌++◌, map, arith, length,
  length-append,
}
use circonus_agent.Prelude.Bytes.{Bytes, codes, is_empty, has_prefix, contains, cut, join, has_byte}
use circonus_agent.Prelude.Strconv.{is_digit}
use circonus_agent.Receiver.Samples.{
  Item, Lib, all_digits, some_digits, is_num_float, leading_digits, match_at, match_tail, find_all,
  bin_samples, item_samples,
}

-- A bucket and a count as they are written.
abbrev pub show_bin : Bytes × Bytes → Bytes
show_bin (bucket, count) = codes "H[" ++ (bucket ++ (codes "]=" ++ count))

-- A bucket has some text without a closing bracket, a count some digits.
abbrev pub IsBin : Bytes × Bytes → Type 0
IsBin (bucket, count) =
    (is_empty bucket ≡ false) × (has_byte b']' bucket ≡ false) × (some_digits count ≡ true)

abbrev pub AreBins : List (Bytes × Bytes) → Type 0
AreBins [] = Unit {0}
AreBins (m ∷ ms) = IsBin m × AreBins ms

abbrev starts_digit : Bytes → Bool
starts_digit [] = false
starts_digit (c ∷ s) = is_digit c

cut_bracket :
    (bucket s : Bytes)
    → has_byte b']' bucket ≡ false
    → cut (codes "]") (bucket ++ (b']' ∷ s)) ≡ some (bucket, s)
unfolding cut has_byte has_prefix
cut_bracket [] s n = refl
cut_bracket (c ∷ bucket) s n = ground (arith, cut_bracket bucket s)

leading_digits-append :
    (count s : Bytes)
    → all_digits count ≡ true
    → starts_digit s ≡ false
    → leading_digits (count ++ s) ≡ count
unfolding leading_digits
leading_digits-append [] [] d n = refl
leading_digits-append [] (c ∷ s) d n = ground arith
leading_digits-append (c ∷ count) s d n = ground (arith, leading_digits-append count s)

match_at-bin :
    (bucket count s : Bytes)
    → IsBin (bucket, count)
    → starts_digit s ≡ false
    → match_at (b'H' ∷ b'[' ∷ (bucket ++ (b']' ∷ b'=' ∷ (count ++ s)))) ≡ some (bucket, count)
unfolding match_at
match_at-bin bucket count s (e, b, d) n =
    rw (cut_bracket bucket (b'=' ∷ (count ++ s)) b, e)
      (rw (leading_digits-append count s (ground arith) n) (ground arith))

find_all-skip : (xs s : Bytes) → find_all (length xs) (xs ++ s) ≡ find_all 0 s
unfolding find_all
find_all-skip [] s = refl
find_all-skip (c ∷ xs) s = find_all-skip xs s

match_tail_lem :
    (bucket count : Bytes)
    → match_tail (bucket, count) ≡ length (b'[' ∷ (bucket ++ (codes "]=" ++ count)))
match_tail_lem bucket count = omega (arith, length-append bucket (codes "]=" ++ count))

find_all-match :
    (c : ℕ) (s : Bytes) (m : Bytes × Bytes)
    → match_at (c ∷ s) ≡ some m
    → find_all 0 (c ∷ s) ≡ m ∷ find_all (match_tail m) s
unfolding find_all
find_all-match c s m h = rw (h, find_all) refl

find_all-space : (s : Bytes) → find_all 0 (b' ' ∷ s) ≡ find_all 0 s
unfolding find_all match_at has_prefix
find_all-space s = refl

find_all-bin :
    (bucket count s : Bytes)
    → IsBin (bucket, count)
    → starts_digit s ≡ false
    → find_all 0 (show_bin (bucket, count) ++ s) ≡ (bucket, count) ∷ find_all 0 s
find_all-bin bucket count s h n =
    let tail = b'[' ∷ (bucket ++ (codes "]=" ++ count)) in
    let regrouped = append_assoc bucket (codes "]=" ++ count) s in
    ap (λ t. find_all 0 (b'H' ∷ b'[' ∷ t)) regrouped
    ∙ find_all-match b'H' _ _ (match_at-bin bucket count s h n)
    ∙ ap (◌∷◌ (bucket, count)) (
        ap (λ t. find_all (match_tail (bucket, count)) (b'[' ∷ t)) (sym regrouped)
        ∙ ap (λ k. find_all k (tail ++ s)) (match_tail_lem bucket count)
        ∙ find_all-skip tail s)

-- Bins that are written one behind the other are all found.
pub find_all-join :
    (ms : List (Bytes × Bytes)) → AreBins ms → find_all 0 (join (codes " ") (map show_bin ms)) ≡ ms
unfolding join
find_all-join [] h = unfold find_all in refl
find_all-join (m ∷ []) (h, t) =
    rw (sym (append-nil (show_bin m))) (find_all-bin m.0 m.1 [] h refl ∙ (unfold find_all in refl))
find_all-join (m ∷ k ∷ ms) (h, t) =
    find_all-bin m.0 m.1 (codes " " ++ join (codes " ") (map show_bin (k ∷ ms))) h refl
    ∙ ap (◌∷◌ m) (find_all-space _ ∙ find_all-join (k ∷ ms) t)

contains_bin :
    (m : Bytes × Bytes) (ms : List (Bytes × Bytes))
    → contains (join (codes " ") (map show_bin (m ∷ ms))) (codes "H[") ≡ true
unfolding join contains has_prefix
contains_bin m [] = refl
contains_bin m (k ∷ ms) = refl

module _ (lib : Lib) where
  -- The text of a histogram that is written out bin by bin, given as a sample, counts for these bins,
  -- each with its own number and in their order; and so does a serialized histogram whose bins these
  -- are.
  pub item_samples_bins :
      (m : Bytes × Bytes) (ms : List (Bytes × Bytes)) (raw : Bytes)
      → AreBins (m ∷ ms)
      → contains raw (codes "H[") ≡ false
      → is_num_float raw ≡ false
      → lib.dec_strings raw ≡ some (map show_bin (m ∷ ms))
      → (item_samples lib (Item.text (join (codes " ") (map show_bin (m ∷ ms))))
          ≡ bin_samples lib (m ∷ ms))
        × (item_samples lib (Item.text raw) ≡ bin_samples lib (m ∷ ms))
  unfolding item_samples
  item_samples_bins m ms raw h plain word dec = (
    rw (contains_bin m ms) (ap (bin_samples lib) (find_all-join (m ∷ ms) h)),
    rw (plain, word, dec) (ap (bin_samples lib) (find_all-join (m ∷ ms) h)),
  )
