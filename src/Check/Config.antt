-- ===== src/Check/Config.antt =====
-- internal/check/check.go: the state of the check, and its calls of the API.
use circonus_agent.Prelude.{
  ℕ, zero, suc, ◌⊎◌, inl, inr, Bool, not, Option, none, some, List, [], ◌∷◌, ltb, ◌==◌,
  if◌then◌else◌, length,
}
use circonus_agent.Prelude.Bytes.{Bytes}

-- What the API gives for a check, a broker's instance, a broker, and a bundle of checks.
pub record CheckData : Type 0 where
  pub cid : Bytes
  pub bundle_cid : Bytes
  pub check_uuid : Bytes
  pub broker_cid : Bytes
  pub is_active : Bool
  pub reverse_urls : List Bytes

pub record Detail : Type 0 where
  pub status : Bytes
  pub ip : Option Bytes
  pub external_host : Option Bytes
  pub common_name : Bytes

pub record Broker : Type 0 where
  pub broker_id : Bytes
  pub details : List Detail

pub record BundleData : Type 0 where
  pub check_cids : List Bytes
  pub period : ℕ

-- The client of the API; `none` is an error. The last is the answer to a request for the certificate, if
-- it can be decoded.
pub record Api : Type 0 where
  pub fetch_check : Bytes → Option CheckData
  pub fetch_broker : Bytes → Option Broker
  pub ca_file : Option (Option Bytes)
  pub get_ca : Option (Option Bytes)

pub data CheckError : Type 0 where
  check_not_initialized broker_not_initialized uninitialized no_checks invalid_index : CheckError
  fetch_failed not_active no_reverse_urls invalid_url invalid_address : CheckError
  no_matching_instance no_certificate bad_certificate : CheckError
  not_reverse no_configs index_panic : CheckError

-- The TLS configuration of a broker: the name that its certificate has to have, and the authorities.
pub record TlsConfig : Type 0 where
  pub server_name : Bytes
  pub roots : Bytes

pub record ReverseConfig : Type 0 where
  pub cn : Bytes
  pub host : Bytes
  pub broker : Bytes
  pub address : Bytes
  pub tls : TlsConfig

pub record Check : Type 0 where
  pub check_config : Option CheckData
  pub check_bundle : Option (Option BundleData)
  pub current_broker : Option Broker
  pub rev_configs : Option (List (Bytes × ReverseConfig))
  pub is_reverse : Bool

abbrev pub cid_at : ℕ → List Bytes → CheckError ⊎ Bytes
cid_at n [] = inl index_panic
cid_at zero (c ∷ cs) = inr c
cid_at (suc n) (c ∷ cs) = cid_at n cs

-- `Bundle.CheckCID`. An index that is the number of checks is out of range.
unfoldable pub check_cid : ℕ → Option BundleData → CheckError ⊎ Bytes
check_cid idx none = inl uninitialized
check_cid idx (some b) =
    if length b.check_cids == 0
    then inl no_checks
    else if ltb (length b.check_cids) idx
    then inl invalid_index
    else cid_at idx b.check_cids

-- `Period`.
abbrev pub bundle_period : Option BundleData → CheckError ⊎ ℕ
bundle_period none = inl uninitialized
bundle_period (some b) = inr b.period

abbrev pub period_of : Option (Option BundleData) → CheckError ⊎ ℕ
period_of none = inl check_not_initialized
period_of (some b) = bundle_period b

unfoldable pub check_period : Check → CheckError ⊎ ℕ
check_period c = period_of c.check_bundle

abbrev pub taken_check : Check → Option CheckData → Option CheckError × Check
taken_check c none = (some fetch_failed, c)
taken_check c (some d) =
    if not d.is_active then (some not_active, c) else (none, record c { check_config = some d })

abbrev pub check_of_cid : Api → Check → CheckError ⊎ Bytes → Option CheckError × Check
check_of_cid api c (inl e) = (some e, c)
check_of_cid api c (inr cid) = taken_check c (api.fetch_check cid)

abbrev pub check_of_bundle : Api → Check → Option (Option BundleData) → Option CheckError × Check
check_of_bundle api c none = (some check_not_initialized, c)
check_of_bundle api c (some b) = check_of_cid api c (check_cid 0 b)

-- `FetchCheckConfig`.
unfoldable pub fetch_check_config : Api → Check → Option CheckError × Check
unfolding check_cid
fetch_check_config api c = check_of_bundle api c c.check_bundle

abbrev pub taken_broker : Check → Option Broker → Option CheckError × Check
taken_broker c none = (some fetch_failed, c)
taken_broker c (some b) = (none, record c { current_broker = some b })

abbrev pub broker_of : Api → Check → Option CheckData → Option CheckError × Check
broker_of api c none = (some check_not_initialized, c)
broker_of api c (some d) = taken_broker c (api.fetch_broker d.broker_cid)

-- `FetchBrokerConfig`.
unfoldable pub fetch_broker_config : Api → Check → Option CheckError × Check
fetch_broker_config api c = broker_of api c c.check_config

abbrev pub some_configs :
    Option (List (Bytes × ReverseConfig)) → CheckError ⊎ List (Bytes × ReverseConfig)
some_configs none = inl no_configs
some_configs (some cfgs) = inr cfgs

-- `GetReverseConfigs`.
unfoldable pub get_reverse_configs : Check → CheckError ⊎ List (Bytes × ReverseConfig)
get_reverse_configs c = if not c.is_reverse then inl not_reverse else some_configs c.rev_configs

-- `CheckMeta`: the ids of the bundle and of the check, and the check's UUID.
unfoldable pub check_meta_of : Option CheckData → CheckError ⊎ (Bytes × Bytes × Bytes)
check_meta_of none = inl check_not_initialized
check_meta_of (some d) = inr (d.bundle_cid, d.cid, d.check_uuid)
