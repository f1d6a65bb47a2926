-- ===== src/Check/Refresh.antt =====
-- internal/check/reverse.go and check.go: the configurations of the reverse connections.
use circonus_agent.Prelude.{
  ℕ, zero, suc, ◌-◌, ◌⊎◌, inl, inr, Bool, true, false, not, ◌&&◌, ◌||◌, Option, none, some, List,
  [], ◌∷◌, ◌++◌, if◌then◌else◌, length,
}
use circonus_agent.Prelude.Bytes.{Bytes, codes, is_empty, has_prefix}
use circonus_agent.Prelude.Strconv.{assign}
use circonus_agent.Check.Config.{
  CheckData, Broker, BundleData, Api, CheckError, TlsConfig, ReverseConfig, Check,
  fetch_check_config, fetch_broker_config, check_not_initialized, broker_not_initialized,
  no_reverse_urls, invalid_url, invalid_address,
}
use circonus_agent.Check.Broker.{get_broker_cn, fetch_broker_ca, Net, tls_of}

-- `strings.ReplaceAll(s, old, new)`; the first argument is how many bytes belong to the last occurrence
-- still.
unfoldable pub replace_all_from : ℕ → Bytes → Bytes → Bytes → Bytes
unfolding has_prefix
replace_all_from skip old new [] = []
replace_all_from (suc skip) old new (c ∷ s) = replace_all_from skip old new s
replace_all_from zero old new (c ∷ s) =
    let keeping = c ∷ replace_all_from zero old new s in
    let replacing = new ++ replace_all_from (length old - 1) old new s in
    if has_prefix (c ∷ s) old then replacing else keeping

abbrev pub as_https : Bytes → Bytes
as_https url = replace_all_from 0 (codes "mtev_reverse") (codes "https") url

abbrev pub ReverseConfigs : Type 0
ReverseConfigs = List (Bytes × ReverseConfig)

abbrev pub config_with :
    Broker → Bytes → Bytes → CheckError ⊎ TlsConfig → CheckError ⊎ ReverseConfig
config_with b host address (inl e) = inl e
config_with b host address (inr tls) = inr (record {
  cn = tls.server_name;
  host = host;
  broker = b.broker_id;
  address = address;
  tls = tls;
})

abbrev pub config_at : Net → Api → Broker → Bytes → Option Bytes → CheckError ⊎ ReverseConfig
config_at net api b host none = inl invalid_address
config_at net api b host (some address) = config_with b host address (tls_of net api host (some b))

abbrev pub config_of_url : Net → Api → Broker → Option (Bytes × Bytes) → CheckError ⊎ ReverseConfig
config_of_url net api b none = inl invalid_url
config_of_url net api b (some (host_port, hostname)) =
    config_at net api b hostname (net.resolve host_port)

-- The body of the loop over the URLs.
unfoldable pub reverse_config : Net → Api → Broker → Bytes → CheckError ⊎ ReverseConfig
unfolding replace_all_from get_broker_cn fetch_broker_ca
reverse_config net api b url = config_of_url net api b (net.parse_url (as_https url))

abbrev pub then_config :
    CheckError ⊎ ReverseConfig
    → (ReverseConfig → CheckError ⊎ ReverseConfigs)
    → CheckError ⊎ ReverseConfigs
then_config (inl e) next = inl e
then_config (inr cfg) next = next cfg

unfoldable pub reverse_configs :
    Net → Api → Broker → List Bytes → ReverseConfigs → CheckError ⊎ ReverseConfigs
unfolding reverse_config assign
reverse_configs net api b [] cfgs = inr cfgs
reverse_configs net api b (url ∷ urls) cfgs =
    then_config (reverse_config net api b url)
      (λ cfg. reverse_configs net api b urls (assign cfg.cn cfg cfgs))

abbrev pub cleared : Check → Check
cleared c = record c { rev_configs = none }

abbrev pub with_made_configs : Check → CheckError ⊎ ReverseConfigs → Option CheckError × Check
with_made_configs c (inl e) = (some e, cleared c)
with_made_configs c (inr cfgs) = (none, record c { rev_configs = some cfgs })

abbrev pub configs_of_urls : Net → Api → Check → Broker → List Bytes → Option CheckError × Check
configs_of_urls net api c b [] = (some no_reverse_urls, cleared c)
configs_of_urls net api c b (url ∷ urls) =
    with_made_configs c (reverse_configs net api b (url ∷ urls) [])

abbrev pub configs_of :
    Net → Api → Check → Option Broker → Option CheckData → Option CheckError × Check
configs_of net api c none d = (some broker_not_initialized, cleared c)
configs_of net api c (some b) none = (some check_not_initialized, cleared c)
configs_of net api c (some b) (some d) = configs_of_urls net api c b d.reverse_urls

-- `setReverseConfigs`: the configurations there were are dropped first.
unfoldable pub set_reverse_configs : Net → Api → Check → Option CheckError × Check
unfolding reverse_configs
set_reverse_configs net api c = configs_of net api c c.current_broker c.check_config

abbrev pub then_step :
    Option CheckError × Check → (Check → Option CheckError × Check) → Option CheckError × Check
then_step (some e, c) next = (some e, c)
then_step (none, c) next = next c

-- `RefreshReverseConfig`.
unfoldable pub refresh_reverse_config : Net → Api → Check → Option CheckError × Check
unfolding fetch_check_config fetch_broker_config set_reverse_configs
refresh_reverse_config net api c =
    then_step (fetch_check_config api c)
      (λ d. then_step (fetch_broker_config api d) (set_reverse_configs net api))

-- A check that is not managed.
abbrev pub no_check : Check
no_check = record {
  check_config = none;
  check_bundle = none;
  current_broker = none;
  rev_configs = none;
  is_reverse = false;
}

abbrev pub in_reverse : Option CheckError × Check → Option CheckError × Check
in_reverse (some e, c) = (some e, c)
in_reverse (none, c) = (none, record c { is_reverse = true })

abbrev pub set_up : Net → Api → Bool → Check → Option CheckError × Check
set_up net api reverse c = then_step (fetch_check_config api c) (λ d.
    then_step (fetch_broker_config api d)
      (λ e. if reverse then in_reverse (set_reverse_configs net api e) else (none, e)))

abbrev pub with_bundle :
    Net → Api → Bool → CheckError ⊎ Option BundleData → Option CheckError × Check
with_bundle net api reverse (inl e) = (some e, no_check)
with_bundle net api reverse (inr b) =
    set_up net api reverse (record no_check { check_bundle = some b })

-- `New`, with the bundle that is found or made; the options are whether to create a check, whether to go in
-- reverse, and the bundle's id. An error leaves no check. (The deletion of a check ends the program.)
unfoldable pub create_check :
    Net → Api → Bool → Bool → Bytes → CheckError ⊎ Option BundleData → Option CheckError × Check
unfolding fetch_check_config fetch_broker_config set_reverse_configs
create_check net api create reverse cid made =
    if not (reverse || (create && is_empty cid))
    then (none, no_check)
    else with_bundle net api reverse made
