-- ===== src/Check/Select.antt =====
-- internal/check/bundle/broker.go: the choice of a broker for a new check.
use circonus_agent.Prelude.{
  ℕ, zero, suc, ◌+◌, ◌*◌, ◌^◌, ◌⊎◌, inl, inr, Bool, false, not, ◌&&◌, ◌||◌, Option, none, some,
  List, [], ◌∷◌, ltb, ◌==◌, if◌then◌else◌, length,
}
use circonus_agent.Prelude.Bytes.{Bytes, codes, is_empty, equal}
use circonus_agent.Prelude.Strconv.{assign}
use circonus_agent.Check.Broker.{status_active}

-- What the API gives for a broker and its instances.
pub record Instance : Type 0 where
  pub instance_status : Bytes
  pub modules : List Bytes
  pub external_port : ℕ
  pub port : Option ℕ
  pub instance_host : Option Bytes
  pub instance_ip : Option Bytes

pub record BrokerInfo : Type 0 where
  pub broker_cid : Bytes
  pub broker_type : Bytes
  pub instances : List Instance

unfoldable pub before_colon : Bytes → Bytes
before_colon [] = []
before_colon (c ∷ s) = let rest = before_colon s in if c == b':' then [] else c ∷ rest

abbrev pub base_type : Bytes → Bytes
base_type check_type =
    if is_empty (before_colon check_type) then check_type else before_colon check_type

abbrev pub has_module : Bytes → List Bytes → Bool
has_module name [] = false
has_module name (m ∷ ms) = equal m name || has_module name ms

-- `brokerSupportsCheckType`.
unfoldable pub supports_check_type : Bytes → Instance → Bool
unfolding before_colon equal
supports_check_type check_type i =
    not (is_empty check_type) && has_module (base_type check_type) i.modules

abbrev pub given_port : Option ℕ → ℕ
given_port none = 43191
given_port (some p) = if p == 0 then 43191 else p

abbrev pub port_of : Instance → ℕ
port_of i = if i.external_port == 0 then given_port i.port else i.external_port

abbrev pub or_else_host : Option Bytes → Option Bytes → Option Bytes
or_else_host none other = other
or_else_host (some []) other = other
or_else_host (some (c ∷ s)) other = some (c ∷ s)

-- The host of an instance, if it has one that is not empty.
unfoldable pub host_of : Instance → Option Bytes
host_of i = or_else_host i.instance_host (or_else_host i.instance_ip none)

unfoldable pub port_for : Bytes → Instance → ℕ
unfolding equal
port_for host i = if equal host (codes "trap.noit.circonus.net") then 443 else port_of i

-- What is known of the network: how long the n-th attempt to connect takes, if it succeeds.
abbrev pub DialTimes : Type 0
DialTimes = Bytes → ℕ → ℕ → Option ℕ

abbrev pub or_later : Option ℕ → Option ℕ → Option ℕ
or_later none later = later
or_later (some d) later = some d

-- The attempts that are left, from the n-th on.
unfoldable pub first_dial : DialTimes → Bytes → ℕ → ℕ → ℕ → Option ℕ
first_dial dial host p n zero = none
first_dial dial host p n (suc left) = or_later (dial host p n) (first_dial dial host p (n + 1) left)

abbrev pub max_retries : ℕ
max_retries = 5

abbrev pub is_usable : Bool → Bytes → Instance → Bool
is_usable multi check_type i =
    equal i.instance_status status_active
    && (supports_check_type check_type i && (not multi || supports_check_type (codes "httptrap") i))

abbrev pub dial_host : DialTimes → Instance → Option Bytes → Option ℕ
dial_host dial i none = none
dial_host dial i (some host) = first_dial dial host (port_for host i) 1 max_retries

-- The loop of `isValidBroker`: how long it takes to connect to the first instance that can be used and
-- answers, if there is one.
unfoldable pub valid_instance : DialTimes → Bool → Bytes → List Instance → Option ℕ
unfolding equal supports_check_type host_of port_for first_dial
valid_instance dial multi check_type [] = none
valid_instance dial multi check_type (i ∷ is) =
    let later = valid_instance dial multi check_type is in
    if not (is_usable multi check_type i)
    then later
    else or_later (dial_host dial i (host_of i)) later

unfoldable pub is_valid_broker : DialTimes → Bool → Bytes → BrokerInfo → Option ℕ
unfolding valid_instance
is_valid_broker dial multi check_type b =
    if is_empty check_type then none else valid_instance dial multi check_type b.instances

pub record Candidates : Type 0 where
  pub valid_brokers : List (Bytes × BrokerInfo)
  pub have_enterprise : Bool
  pub threshold : ℕ

unfoldable pub is_enterprise : BrokerInfo → Bool
unfolding equal
is_enterprise b = equal b.broker_type (codes "enterprise")

abbrev pub noted : BrokerInfo → Candidates → Candidates
noted b s = record s { have_enterprise = is_enterprise b || s.have_enterprise }

abbrev pub among : ℕ → BrokerInfo → Candidates → Candidates
among d b s =
    if d == s.threshold
    then record s { valid_brokers = assign b.broker_cid b s.valid_brokers }
    else record { valid_brokers = (b.broker_cid, b) ∷ []; have_enterprise = false; threshold = d }

-- The body of the loop over the brokers.
abbrev pub candidate : Option ℕ → BrokerInfo → Candidates → Candidates
candidate none b s = s
candidate (some d) b s = if ltb s.threshold d then s else noted b (among d b s)

unfoldable pub candidates : (BrokerInfo → Option ℕ) → List BrokerInfo → Candidates → Candidates
unfolding assign is_enterprise
candidates measure [] s = s
candidates measure (b ∷ bs) s = candidates measure bs (candidate (measure b) b s)

-- Ten seconds.
abbrev pub first_candidates : Candidates
first_candidates = record { valid_brokers = []; have_enterprise = false; threshold = 10 * 10 ^ 9 }

unfoldable pub enterprise_only : List (Bytes × BrokerInfo) → List (Bytes × BrokerInfo)
unfolding is_enterprise
enterprise_only [] = []
enterprise_only ((k, b) ∷ bs) =
    let rest = enterprise_only bs in if is_enterprise b then (k, b) ∷ rest else rest

pub data SelectError : Type 0 where
  invalid_check_type empty_list no_enterprise no_valid_brokers : SelectError

-- The element of a list that is not empty; the index is in range.
abbrev pub picked : ℕ → BrokerInfo → List (Bytes × BrokerInfo) → BrokerInfo
picked zero b rest = b
picked (suc n) b [] = b
picked (suc n) b ((k, b') ∷ rest) = picked n b' rest

abbrev pub pick_broker : (ℕ → ℕ) → List (Bytes × BrokerInfo) → SelectError ⊎ BrokerInfo
pick_broker random [] = inl no_valid_brokers
pick_broker random ((k, b) ∷ rest) = inr (picked (random (length ((k, b) ∷ rest))) b rest)

abbrev pub chosen : (ℕ → ℕ) → Bool → Candidates → SelectError ⊎ BrokerInfo
chosen random multi s =
    if not s.have_enterprise && multi
    then inl no_enterprise
    else pick_broker random
        (if s.have_enterprise then enterprise_only s.valid_brokers else s.valid_brokers)

-- `selectBroker` of a list of brokers, with `rand.Intn`.
unfoldable pub select_broker :
    DialTimes → (ℕ → ℕ) → Bool → Bytes → List BrokerInfo → SelectError ⊎ BrokerInfo
unfolding is_valid_broker candidates enterprise_only
select_broker dial random multi [] bs = inl invalid_check_type
select_broker dial random multi (c ∷ check_type) [] = inl empty_list
select_broker dial random multi (c ∷ check_type) (b ∷ bs) =
    chosen random multi
      (candidates (is_valid_broker dial multi (c ∷ check_type)) (b ∷ bs) first_candidates)
