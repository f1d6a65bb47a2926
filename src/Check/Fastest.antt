-- ===== src/Check/Fastest.antt =====
-- Which broker is chosen.
use circonus_agent.Prelude.{
  ℕ, zero, suc, ◌≤◌, ◌≡◌, refl, ap, ◌∙◌, ◌⊎◌, inl, inr, Bool, true, false, not, ◌&&◌, ◌||◌, Option,
  none, some, List, [], ◌∷◌, arith, ltb, ◌==◌, if◌then◌else◌, Bool-cases, length,
}
use circonus_agent.Prelude.Bytes.{Bytes, equal}
use circonus_agent.Prelude.Strconv.{assign}
use circonus_agent.Check.Select.{
  BrokerInfo, DialTimes, is_valid_broker, Candidates, is_enterprise, candidate, candidates,
  first_candidates, enterprise_only, SelectError, picked, pick_broker, chosen, select_broker,
}

-- A broker of the list.
abbrev pub Member : BrokerInfo → List BrokerInfo → Type 0
Member b [] = ⊥
Member b (x ∷ bs) = (x ≡ b) ⊎ Member b bs

-- Each takes a given time to connect to.
abbrev AllTake : (BrokerInfo → Option ℕ) → ℕ → List (Bytes × BrokerInfo) → Type 0
AllTake measure d [] = Unit {0}
AllTake measure d ((k, b) ∷ bs) = (measure b ≡ some d) × AllTake measure d bs

assign-AllTake :
    (measure : BrokerInfo → Option ℕ) (d : ℕ) (k : Bytes) (b : BrokerInfo)
    (bs : List (Bytes × BrokerInfo))
    → measure b ≡ some d
    → AllTake measure d bs
    → AllTake measure d (assign k b bs)
unfolding assign
assign-AllTake measure d k b [] own h = (own, tt)
assign-AllTake measure d k b ((j, x) ∷ bs) own (first, h) = elim (Bool-cases (equal j k)) [
  | inl same ↦ rw same (own, h)
  | inr differs ↦ rw differs (first, assign-AllTake measure d k b bs own h)
]

enterprise_only-AllTake :
    (measure : BrokerInfo → Option ℕ) (d : ℕ) (bs : List (Bytes × BrokerInfo))
    → AllTake measure d bs
    → AllTake measure d (enterprise_only bs)
unfolding enterprise_only
enterprise_only-AllTake measure d [] h = tt
enterprise_only-AllTake measure d ((k, b) ∷ bs) (own, h) = elim (Bool-cases (is_enterprise b)) [
  | inl big ↦ rw big (own, enterprise_only-AllTake measure d bs h)
  | inr small ↦ rw small (enterprise_only-AllTake measure d bs h)
]

candidate-AllTake :
    (measure : BrokerInfo → Option ℕ) (o : Option ℕ) (b : BrokerInfo) (s : Candidates)
    → measure b ≡ o
    → AllTake measure s.threshold s.valid_brokers
    → AllTake measure (candidate o b s).threshold (candidate o b s).valid_brokers
candidate-AllTake measure none b s own h = h
candidate-AllTake measure (some d) b s own h = elim (Bool-cases (ltb s.threshold d)) [
  | inl slower ↦ rw slower h
  | inr near ↦ elim (Bool-cases (d == s.threshold)) [
    | inl level ↦
        rw (near, level)
          (assign-AllTake measure s.threshold b.broker_cid b s.valid_brokers
            (ground (arith, own, level)) h)
    | inr faster ↦ rw (near, faster) (own, tt)
  ]
]

candidate_threshold :
    (o : Option ℕ) (b : BrokerInfo) (s : Candidates) → (candidate o b s).threshold ≤ s.threshold
candidate_threshold none b s = omega arith
candidate_threshold (some d) b s = ground arith

candidate_reaches :
    (o : Option ℕ) (d : ℕ) (b : BrokerInfo) (s : Candidates)
    → o ≡ some d
    → (candidate o b s).threshold ≤ d
candidate_reaches none d b s h = absurd (ground arith)
candidate_reaches (some e) d b s h = ground arith

candidates-AllTake :
    (measure : BrokerInfo → Option ℕ) (bs : List BrokerInfo) (s : Candidates)
    → AllTake measure s.threshold s.valid_brokers
    → AllTake measure (candidates measure bs s).threshold (candidates measure bs s).valid_brokers
unfolding candidates
candidates-AllTake measure [] s h = h
candidates-AllTake measure (b ∷ bs) s h =
    candidates-AllTake measure bs (candidate (measure b) b s)
      (candidate-AllTake measure (measure b) b s refl h)

candidates_threshold :
    (measure : BrokerInfo → Option ℕ) (bs : List BrokerInfo) (s : Candidates)
    → (candidates measure bs s).threshold ≤ s.threshold
unfolding candidates
candidates_threshold measure [] s = omega arith
candidates_threshold measure (b ∷ bs) s = omega (
  arith,
  candidates_threshold measure bs (candidate (measure b) b s),
  candidate_threshold (measure b) b s,
)

candidates_fastest :
    (measure : BrokerInfo → Option ℕ) (bs : List BrokerInfo) (s : Candidates) (b : BrokerInfo)
    (d : ℕ)
    → Member b bs
    → measure b ≡ some d
    → (candidates measure bs s).threshold ≤ d
unfolding candidates
candidates_fastest measure [] s b d mem h = absurd mem
candidates_fastest measure (x ∷ bs) s b d (inl same) h = omega (
  arith,
  candidates_threshold measure bs (candidate (measure x) x s),
  candidate_reaches (measure x) d x s (ap measure same ∙ h),
)
candidates_fastest measure (x ∷ bs) s b d (inr later) h =
    candidates_fastest measure bs (candidate (measure x) x s) b d later h

picked-AllTake :
    (measure : BrokerInfo → Option ℕ) (d n : ℕ) (k : Bytes) (b : BrokerInfo)
    (rest : List (Bytes × BrokerInfo))
    → AllTake measure d ((k, b) ∷ rest)
    → measure (picked n b rest) ≡ some d
picked-AllTake measure d zero k b rest (own, h) = own
picked-AllTake measure d (suc n) k b [] (own, h) = own
picked-AllTake measure d (suc n) k b ((j, x) ∷ rest) (own, h) =
    picked-AllTake measure d n j x rest h

pick_broker-AllTake :
    (measure : BrokerInfo → Option ℕ) (random : ℕ → ℕ) (d : ℕ) (bs : List (Bytes × BrokerInfo))
    (b : BrokerInfo)
    → AllTake measure d bs
    → pick_broker random bs ≡ inr b
    → measure b ≡ some d
pick_broker-AllTake measure random d [] b h e = absurd (ground arith)
pick_broker-AllTake measure random d ((k, x) ∷ rest) b h e =
    rw (ap or_first e) at (picked-AllTake measure d (random (length ((k, x) ∷ rest))) k x rest h)
  where
    or_first : SelectError ⊎ BrokerInfo → BrokerInfo
    or_first (inl e') = x
    or_first (inr y) = y

chosen-AllTake :
    (measure : BrokerInfo → Option ℕ) (random : ℕ → ℕ) (multi : Bool) (s : Candidates)
    (b : BrokerInfo)
    → AllTake measure s.threshold s.valid_brokers
    → chosen random multi s ≡ inr b
    → measure b ≡ some s.threshold
chosen-AllTake measure random multi s b h e = elim (Bool-cases (not s.have_enterprise && multi)) [
  | inl lacking ↦ absurd (ground (arith, rw lacking at e))
  | inr fine ↦ elim (Bool-cases s.have_enterprise) [
    | inl big ↦
        pick_broker-AllTake measure random s.threshold (enterprise_only s.valid_brokers) b
          (enterprise_only-AllTake measure s.threshold s.valid_brokers h) (rw (fine, big) at e)
    | inr small ↦
        pick_broker-AllTake measure random s.threshold s.valid_brokers b h (rw (fine, small) at e)
  ]
]

-- A time is taken only by brokers for enterprises, so that what all take shows their type.
abbrev shown_type : BrokerInfo → Option ℕ
shown_type b = if is_enterprise b then some 0 else none

enterprise_only_by_type :
    (bs : List (Bytes × BrokerInfo)) → AllTake shown_type 0 (enterprise_only bs)
unfolding enterprise_only
enterprise_only_by_type [] = tt
enterprise_only_by_type ((k, b) ∷ bs) = elim (Bool-cases (is_enterprise b)) [
  | inl big ↦ rw big (rw big refl, enterprise_only_by_type bs)
  | inr small ↦ rw small (enterprise_only_by_type bs)
]

chosen_multi :
    (random : ℕ → ℕ) (s : Candidates) (b : BrokerInfo)
    → chosen random true s ≡ inr b
    → is_enterprise b ≡ true
chosen_multi random s b e = elim (Bool-cases s.have_enterprise) [
  | inl big ↦ ground (
    arith,
    pick_broker-AllTake shown_type random 0 (enterprise_only s.valid_brokers) b
        (enterprise_only_by_type s.valid_brokers) (rw big at e),
  )
  | inr small ↦ absurd (ground (arith, rw small at e))
]

chosen_type :
    (random : ℕ → ℕ) (multi : Bool) (s : Candidates) (b : BrokerInfo)
    → chosen random multi s ≡ inr b
    → (not multi || is_enterprise b) ≡ true
chosen_type random false s b e = refl
chosen_type random true s b e = chosen_multi random s b e

-- The broker that is selected is valid (an active instance of it with the modules needed can be connected
-- to), and no valid broker is faster to connect to; where there are several agents, it is one for
-- enterprises.
pub select_broker_fastest :
    (dial : DialTimes) (random : ℕ → ℕ) (multi : Bool) (check_type : Bytes) (bs : List BrokerInfo)
    (b other : BrokerInfo) (d : ℕ)
    → select_broker dial random multi check_type bs ≡ inr b
    → Member other bs
    → is_valid_broker dial multi check_type other ≡ some d
    → (own : ℕ) × (is_valid_broker dial multi check_type b ≡ some own)
      × (own ≤ d)
      × ((not multi || is_enterprise b) ≡ true)
unfolding select_broker
select_broker_fastest dial random multi [] bs b other d e mem h = absurd (ground arith)
select_broker_fastest dial random multi (c ∷ check_type) [] b other d e mem h = absurd mem
select_broker_fastest dial random multi (c ∷ check_type) (x ∷ bs) b other d e mem h =
    let measure = is_valid_broker dial multi (c ∷ check_type) in
    let end = candidates measure (x ∷ bs) first_candidates in
    (
      end.threshold,
      chosen-AllTake measure random multi end b
          (candidates-AllTake measure (x ∷ bs) first_candidates tt) e,
      candidates_fastest measure (x ∷ bs) first_candidates other d mem h,
      chosen_type random multi end b e,
    )
