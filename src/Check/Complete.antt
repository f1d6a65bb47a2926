-- ===== src/Check/Complete.antt =====
-- What a refresh of the check that succeeds has brought about.
use circonus_agent.Prelude.{
  ◌≡◌, refl, sym, ap, ◌⊎◌, inl, inr, true, Option, none, some, List, [], ◌∷◌, arith, Bool-cases,
}
use circonus_agent.Prelude.Bytes.{Bytes, equal_refl}
use circonus_agent.Prelude.Strconv.{lookup, assign, lookup-assign}
use circonus_agent.Prelude.Maps.{is_known}
use circonus_agent.Check.Config.{
  CheckData, Broker, BundleData, Api, CheckError, ReverseConfig, Check, check_cid, taken_check,
  check_of_cid, check_of_bundle, fetch_check_config, taken_broker, fetch_broker_config,
}
use circonus_agent.Check.Broker.{Net}
use circonus_agent.Check.Refresh.{
  ReverseConfigs, reverse_config, then_config, reverse_configs, with_made_configs, configs_of_urls,
  set_reverse_configs, then_step, refresh_reverse_config,
}

-- Each URL has a configuration, and there is one under its name.
abbrev pub Covered : Net → Api → Broker → ReverseConfigs → List Bytes → Type 0
Covered net api b cfgs [] = Unit {0}
Covered net api b cfgs (url ∷ urls) =
    ((cfg : ReverseConfig) × (reverse_config net api b url ≡ inr cfg)
      × (is_known (lookup cfg.cn cfgs) ≡ true))
    × Covered net api b cfgs urls

-- The check is active, the broker is the one that the API gives for it, and the configurations are those
-- of the check's URLs, of which there are some.
abbrev pub Fresh : Net → Api → Check → Type 0
Fresh net api c =
    (d : CheckData) × (b : Broker) × (cfgs : ReverseConfigs) × (c.check_config ≡ some d)
    × (d.is_active ≡ true)
    × (api.fetch_broker d.broker_cid ≡ some b)
    × (c.current_broker ≡ some b)
    × (c.rev_configs ≡ some cfgs)
    × Covered net api b cfgs d.reverse_urls

then_config-inr :
    (r : CheckError ⊎ ReverseConfig) (next : ReverseConfig → CheckError ⊎ ReverseConfigs)
    (end : ReverseConfigs)
    → then_config r next ≡ inr end
    → (cfg : ReverseConfig) × (r ≡ inr cfg) × (next cfg ≡ inr end)
then_config-inr (inl e) next end h = absurd (ground arith)
then_config-inr (inr cfg) next end h = (cfg, refl, h)

then_step-none :
    (r : Option CheckError × Check) (next : Check → Option CheckError × Check) (end : Check)
    → then_step r next ≡ (none, end)
    → (mid : Check) × (r ≡ (none, mid)) × (next mid ≡ (none, end))
then_step-none (some e, c) next end h = absurd (ground arith)
then_step-none (none, c) next end h = (c, refl, h)

assign-known :
    (name key : Bytes) (cfg : ReverseConfig) (cfgs : ReverseConfigs)
    → is_known (lookup name cfgs) ≡ true
    → is_known (lookup name (assign key cfg cfgs)) ≡ true
assign-known name key cfg cfgs h = rw (lookup-assign key name cfg cfgs) (ground arith)

reverse_configs-known :
    (net : Net) (api : Api) (b : Broker) (name : Bytes) (urls : List Bytes)
    (cfgs end : ReverseConfigs)
    → is_known (lookup name cfgs) ≡ true
    → reverse_configs net api b urls cfgs ≡ inr end
    → is_known (lookup name end) ≡ true
unfolding reverse_configs
reverse_configs-known net api b name [] cfgs end k h = ground arith
reverse_configs-known net api b name (url ∷ urls) cfgs end k h =
    let (cfg, own, rest) =
      then_config-inr (reverse_config net api b url)
        (λ cfg. reverse_configs net api b urls (assign cfg.cn cfg cfgs)) end h in
    reverse_configs-known net api b name urls (assign cfg.cn cfg cfgs) end
      (assign-known name cfg.cn cfg cfgs k) rest

reverse_configs-Covered :
    (net : Net) (api : Api) (b : Broker) (urls : List Bytes) (cfgs end : ReverseConfigs)
    → reverse_configs net api b urls cfgs ≡ inr end
    → Covered net api b end urls
unfolding reverse_configs
reverse_configs-Covered net api b [] cfgs end h = tt
reverse_configs-Covered net api b (url ∷ urls) cfgs end h =
    let (cfg, own, rest) =
      then_config-inr (reverse_config net api b url)
        (λ cfg. reverse_configs net api b urls (assign cfg.cn cfg cfgs)) end h in
    (
      (
        cfg,
        own,
        reverse_configs-known net api b cfg.cn urls (assign cfg.cn cfg cfgs) end
            (rw (lookup-assign cfg.cn cfg.cn cfg cfgs, equal_refl cfg.cn) refl) rest,
      ),
      reverse_configs-Covered net api b urls (assign cfg.cn cfg cfgs) end rest,
    )

taken_check-none :
    (c end : Check) (o : Option CheckData)
    → taken_check c o ≡ (none, end)
    → (d : CheckData) × (d.is_active ≡ true) × (record c { check_config = some d } ≡ end)
taken_check-none c end none h = absurd (ground arith)
taken_check-none c end (some d) h = elim (Bool-cases d.is_active) [
  | inl going ↦ (d, going, ground (arith, h))
  | inr ended ↦ absurd (ground (arith, h))
]

fetch_check_config-none :
    (api : Api) (c end : Check)
    → fetch_check_config api c ≡ (none, end)
    → (d : CheckData) × (d.is_active ≡ true) × (record c { check_config = some d } ≡ end)
unfolding fetch_check_config
fetch_check_config-none api c end h = bundled c.check_bundle h
  where
    numbered :
        (r : CheckError ⊎ Bytes)
        → check_of_cid api c r ≡ (none, end)
        → (d : CheckData) × (d.is_active ≡ true) × (record c { check_config = some d } ≡ end)
    numbered (inl e) h' = absurd (ground arith)
    numbered (inr cid) h' = taken_check-none c end (api.fetch_check cid) h'

    bundled :
        (o : Option (Option BundleData))
        → check_of_bundle api c o ≡ (none, end)
        → (d : CheckData) × (d.is_active ≡ true) × (record c { check_config = some d } ≡ end)
    bundled none h' = absurd (ground arith)
    bundled (some b) h' = numbered (check_cid 0 b) h'

taken_broker-none :
    (c end : Check) (o : Option Broker)
    → taken_broker c o ≡ (none, end)
    → (b : Broker) × (o ≡ some b) × (record c { current_broker = some b } ≡ end)
taken_broker-none c end none h = absurd (ground arith)
taken_broker-none c end (some b) h = (b, refl, ap (λ r. r.1) h)

with_made_configs-none :
    (c end : Check) (r : CheckError ⊎ ReverseConfigs)
    → with_made_configs c r ≡ (none, end)
    → (cfgs : ReverseConfigs) × (r ≡ inr cfgs) × (record c { rev_configs = some cfgs } ≡ end)
with_made_configs-none c end (inl e) h = absurd (ground arith)
with_made_configs-none c end (inr cfgs) h = (cfgs, refl, ap (λ r. r.1) h)

configs_of_urls-none :
    (net : Net) (api : Api) (c end : Check) (b : Broker) (urls : List Bytes)
    → configs_of_urls net api c b urls ≡ (none, end)
    → (cfgs : ReverseConfigs) × Covered net api b cfgs urls
      × (record c { rev_configs = some cfgs } ≡ end)
configs_of_urls-none net api c end b [] h = absurd (ground arith)
configs_of_urls-none net api c end b (url ∷ urls) h =
    let (cfgs, made, left) =
      with_made_configs-none c end (reverse_configs net api b (url ∷ urls) []) h in
    (cfgs, reverse_configs-Covered net api b (url ∷ urls) [] cfgs made, left)

-- The last two steps, on a check that has been fetched.
broker_and_configs_none :
    (net : Net) (api : Api) (c mid end : Check) (d : CheckData)
    → d.is_active ≡ true
    → taken_broker (record c { check_config = some d }) (api.fetch_broker d.broker_cid)
      ≡ (none, mid)
    → set_reverse_configs net api mid ≡ (none, end)
    → Fresh net api end
unfolding set_reverse_configs
broker_and_configs_none net api c mid end d active h last =
    let (b, given, left) =
      taken_broker-none (record c { check_config = some d }) mid (api.fetch_broker d.broker_cid)
        h in
    let (cfgs, covered, ends) =
      configs_of_urls-none net api (record c { check_config = some d; current_broker = some b }) end
        b d.reverse_urls (rw (sym left) at last) in
    (
      d,
      b,
      cfgs,
      sym (ap (λ x. x.check_config) ends),
      active,
      given,
      sym (ap (λ x. x.current_broker) ends),
      sym (ap (λ x. x.rev_configs) ends),
      covered,
    )

-- After a refresh that reports no error, the check is active, the broker is the one that the API gives for
-- this check, and each of the check's URLs has a configuration, under the name of which there is one.
pub refresh_reverse_config-Fresh :
    (net : Net) (api : Api) (c end : Check)
    → refresh_reverse_config net api c ≡ (none, end)
    → Fresh net api end
unfolding refresh_reverse_config fetch_broker_config
refresh_reverse_config-Fresh net api c end h =
    let (mid, first, rest) =
      then_step-none (fetch_check_config api c)
        (λ d. then_step (fetch_broker_config api d) (set_reverse_configs net api)) end h in
    let (d, active, left) = fetch_check_config-none api c mid first in
    let (last, second, third) =
      then_step-none (fetch_broker_config api mid) (set_reverse_configs net api) end rest in
    broker_and_configs_none net api c last end d active (rw (sym left) at second) third
