-- ===== src/Check/Matching.antt =====
-- The configurations of the reverse connections belong to the broker that the check holds.
use mathlib.Core.Path.{subst}
use circonus_agent.Prelude.{
  ◌≡◌, refl, sym, ◌⊎◌, inl, inr, Bool, true, false, not, Option, none, some, List, [], ◌∷◌, arith,
  if◌then◌else◌, Bool-cases,
}
use circonus_agent.Prelude.Bytes.{Bytes, is_empty, equal, equal_exact}
use circonus_agent.Prelude.Strconv.{assign}
use circonus_agent.Check.Config.{
  CheckData, Detail, Broker, BundleData, Api, CheckError, ReverseConfig, Check, check_cid,
  taken_check, check_of_cid, check_of_bundle, fetch_check_config, taken_broker, broker_of,
  fetch_broker_config, not_active,
}
use circonus_agent.Check.Broker.{
  is_instance, instance_cn, get_broker_cn, fetch_broker_ca, Net, tls_with, tls_of,
}
use circonus_agent.Check.Refresh.{
  as_https, ReverseConfigs, config_with, config_at, config_of_url, reverse_config, then_config,
  reverse_configs, with_made_configs, configs_of_urls, configs_of, set_reverse_configs, then_step,
  refresh_reverse_config,
}

-- An active instance with that address or host has that name.
abbrev pub Names : Bytes → Bytes → List Detail → Type 0
Names host name [] = ⊥
Names host name (d ∷ ds) =
    ((is_instance host d ≡ true) × (d.common_name ≡ name)) ⊎ Names host name ds

-- A configuration is that of an instance of a broker, and TLS asks for the name of this instance.
abbrev pub Matched : Broker → ReverseConfig → Type 0
Matched b cfg =
    (cfg.broker ≡ b.broker_id) × (cfg.tls.server_name ≡ cfg.cn) × Names cfg.host cfg.cn b.details

abbrev pub AllMatched : Broker → ReverseConfigs → Type 0
AllMatched b [] = Unit {0}
AllMatched b ((name, cfg) ∷ cfgs) = ((name ≡ cfg.cn) × Matched b cfg) × AllMatched b cfgs

abbrev pub MatchedBy : Option Broker → Option ReverseConfigs → Type 0
MatchedBy b none = Unit {0}
MatchedBy none (some cfgs) = ⊥
MatchedBy (some b) (some cfgs) = AllMatched b cfgs

abbrev pub IsMatched : Check → Type 0
IsMatched c = MatchedBy c.current_broker c.rev_configs

instance_cn_later :
    (host : Bytes) (d : Detail) (ds : List Detail)
    → is_instance host d ≡ false
    → instance_cn host (d ∷ ds) ≡ instance_cn host ds
unfolding instance_cn
instance_cn_later host d ds h = rw h refl

instance_cn-Names :
    (host : Bytes) (ds : List Detail)
    → is_empty (instance_cn host ds) ≡ false
    → Names host (instance_cn host ds) ds
instance_cn-Names host [] h = absurd (unfold instance_cn in ground arith)
instance_cn-Names host (d ∷ ds) h = elim (Bool-cases (is_instance host d)) [
  | inl here ↦ inl (here, unfold instance_cn in rw here refl)
  | inr further ↦ inr (
      subst (λ x. Names host x ds) (sym (instance_cn_later host d ds further))
        (instance_cn-Names host ds (rw (instance_cn_later host d ds further) at h)))
]

-- What a loop over the URLs makes, or an error.
abbrev EachMatched : Broker → CheckError ⊎ ReverseConfig → Type 0
EachMatched b (inl e) = Unit {0}
EachMatched b (inr cfg) = Matched b cfg

abbrev LoopMatched : Broker → CheckError ⊎ ReverseConfigs → Type 0
LoopMatched b (inl e) = Unit {0}
LoopMatched b (inr cfgs) = AllMatched b cfgs

tls_with-Matched :
    (net : Net) (b : Broker) (host address name : Bytes) (cert : CheckError ⊎ Bytes)
    → Names host name b.details
    → EachMatched b (config_with b host address (tls_with net name cert))
tls_with-Matched net b host address name (inl e) h = tt
tls_with-Matched net b host address name (inr cert) h = elim (Bool-cases (net.is_pem cert)) [
  | inl good ↦ rw good (refl, refl, h)
  | inr bad ↦ rw bad tt
]

config_with-Matched :
    (net : Net) (api : Api) (b : Broker) (host address : Bytes)
    → EachMatched b (config_with b host address (tls_of net api host (some b)))
unfolding get_broker_cn
config_with-Matched net api b host address =
    elim (Bool-cases (is_empty (instance_cn host b.details))) [
      | inl nobody ↦ rw nobody tt
      | inr named ↦ rw named (
          tls_with-Matched net b host address (instance_cn host b.details) (fetch_broker_ca api)
            (instance_cn-Names host b.details named))
    ]

reverse_config-Matched :
    (net : Net) (api : Api) (b : Broker) (url : Bytes)
    → EachMatched b (reverse_config net api b url)
unfolding reverse_config
reverse_config-Matched net api b url = parsed (net.parse_url (as_https url))
  where
    resolved : (host : Bytes) (a : Option Bytes) → EachMatched b (config_at net api b host a)
    resolved host none = tt
    resolved host (some address) = config_with-Matched net api b host address

    parsed : (u : Option (Bytes × Bytes)) → EachMatched b (config_of_url net api b u)
    parsed none = tt
    parsed (some (host_port, hostname)) = resolved hostname (net.resolve host_port)

assign-AllMatched :
    (b : Broker) (cfg : ReverseConfig) (cfgs : ReverseConfigs)
    → Matched b cfg
    → AllMatched b cfgs
    → AllMatched b (assign cfg.cn cfg cfgs)
unfolding assign
assign-AllMatched b cfg [] own h = ((refl, own), tt)
assign-AllMatched b cfg ((name, old) ∷ cfgs) own (first, h) =
    elim (Bool-cases (equal name cfg.cn)) [
      | inl same ↦ rw same (((equal_exact name cfg.cn).0 same, own), h)
      | inr differs ↦ rw differs (first, assign-AllMatched b cfg cfgs own h)
    ]

then_config-Matched :
    (b : Broker) (r : CheckError ⊎ ReverseConfig)
    (next : ReverseConfig → CheckError ⊎ ReverseConfigs)
    → EachMatched b r
    → ((cfg : ReverseConfig) → Matched b cfg → LoopMatched b (next cfg))
    → LoopMatched b (then_config r next)
then_config-Matched b (inl e) next own h = tt
then_config-Matched b (inr cfg) next own h = h cfg own

reverse_configs-Matched :
    (net : Net) (api : Api) (b : Broker) (urls : List Bytes) (cfgs : ReverseConfigs)
    → AllMatched b cfgs
    → LoopMatched b (reverse_configs net api b urls cfgs)
unfolding reverse_configs
reverse_configs-Matched net api b [] cfgs h = h
reverse_configs-Matched net api b (url ∷ urls) cfgs h =
    then_config-Matched b (reverse_config net api b url)
      (λ cfg. reverse_configs net api b urls (assign cfg.cn cfg cfgs))
      (reverse_config-Matched net api b url)
      (λ cfg own.
        reverse_configs-Matched net api b urls (assign cfg.cn cfg cfgs)
          (assign-AllMatched b cfg cfgs own h))

cleared-IsMatched : (b : Option Broker) → MatchedBy b none
cleared-IsMatched none = tt
cleared-IsMatched (some b) = tt

configs_of-IsMatched :
    (net : Net) (api : Api) (c : Check) (b : Option Broker) (d : Option CheckData)
    → MatchedBy b (configs_of net api c b d).1.rev_configs
configs_of-IsMatched net api c none d = tt
configs_of-IsMatched net api c (some b) none = tt
configs_of-IsMatched net api c (some b) (some d) = of_urls d.reverse_urls
  where
    with_all :
        (r : CheckError ⊎ ReverseConfigs)
        → LoopMatched b r
        → MatchedBy (some b) (with_made_configs c r).1.rev_configs
    with_all (inl e) h = tt
    with_all (inr cfgs) h = h

    of_urls :
        (urls : List Bytes) → MatchedBy (some b) (configs_of_urls net api c b urls).1.rev_configs
    of_urls [] = tt
    of_urls (url ∷ urls) =
        with_all (reverse_configs net api b (url ∷ urls) [])
          (reverse_configs-Matched net api b (url ∷ urls) [] tt)

configs_of-broker :
    (net : Net) (api : Api) (c : Check) (b : Option Broker) (d : Option CheckData)
    → (configs_of net api c b d).1.current_broker ≡ c.current_broker
configs_of-broker net api c none d = refl
configs_of-broker net api c (some b) none = refl
configs_of-broker net api c (some b) (some d) = of_urls d.reverse_urls
  where
    with_all :
        (r : CheckError ⊎ ReverseConfigs)
        → (with_made_configs c r).1.current_broker ≡ c.current_broker
    with_all (inl e) = refl
    with_all (inr cfgs) = refl

    of_urls :
        (urls : List Bytes) → (configs_of_urls net api c b urls).1.current_broker ≡ c.current_broker
    of_urls [] = refl
    of_urls (url ∷ urls) = with_all _

set_reverse_configs-IsMatched :
    (net : Net) (api : Api) (c : Check) → IsMatched (set_reverse_configs net api c).1
unfolding set_reverse_configs
set_reverse_configs-IsMatched net api c =
    rw (configs_of-broker net api c c.current_broker c.check_config)
      (configs_of-IsMatched net api c c.current_broker c.check_config)

broker_then_configs-IsMatched :
    (net : Net) (api : Api) (c : Check)
    → IsMatched c
    → IsMatched (then_step (fetch_broker_config api c) (set_reverse_configs net api)).1
unfolding fetch_broker_config
broker_then_configs-IsMatched net api c h = known c.check_config
  where
    answered :
        (o : Option Broker)
        → IsMatched (then_step (taken_broker c o) (set_reverse_configs net api)).1
    answered none = h
    answered (some b) = set_reverse_configs-IsMatched net api _

    known :
        (d : Option CheckData)
        → IsMatched (then_step (broker_of api c d) (set_reverse_configs net api)).1
    known none = h
    known (some d) = answered (api.fetch_broker d.broker_cid)

-- Through a refresh, whatever the API answers and whatever fails on the way, the configurations of the
-- reverse connections that there are stay those of the broker that the check holds (`current_broker`, the
-- last one fetched, which need not be the one that a check fetched anew names, if fetching that broker
-- fails): each is kept under the name of an active instance of the broker held whose address or host is
-- in its URL, and TLS asks for a certificate with that name.
pub refresh_reverse_config-IsMatched :
    (net : Net) (api : Api) (c : Check)
    → IsMatched c
    → IsMatched (refresh_reverse_config net api c).1
unfolding refresh_reverse_config fetch_check_config
refresh_reverse_config-IsMatched net api c h = bundled c.check_bundle
  where
    next : Check → Option CheckError × Check
    next d = then_step (fetch_broker_config api d) (set_reverse_configs net api)

    active :
        (d : CheckData) (b : Bool)
        → IsMatched
            (then_step
              (if not b then (some not_active, c) else (none, record c { check_config = some d }))
              next).1
    active d true = broker_then_configs-IsMatched net api (record c { check_config = some d }) h
    active d false = h

    answered : (o : Option CheckData) → IsMatched (then_step (taken_check c o) next).1
    answered none = h
    answered (some d) = active d d.is_active

    numbered : (r : CheckError ⊎ Bytes) → IsMatched (then_step (check_of_cid api c r) next).1
    numbered (inl e) = h
    numbered (inr cid) = answered (api.fetch_check cid)

    bundled :
        (o : Option (Option BundleData)) → IsMatched (then_step (check_of_bundle api c o) next).1
    bundled none = h
    bundled (some b) = numbered (check_cid 0 b)
