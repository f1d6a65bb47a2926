-- ===== src/Check/Broker.antt =====
-- internal/check/broker.go: the name and the certificates of the broker.
use circonus_agent.Prelude.{
  ◌⊎◌, inl, inr, Bool, false, not, ◌&&◌, ◌||◌, Option, none, some, List, [], ◌∷◌, if◌then◌else◌,
}
use circonus_agent.Prelude.Bytes.{Bytes, codes, is_empty, equal}
use circonus_agent.Check.Config.{
  Detail, Broker, Api, CheckError, TlsConfig, Check, broker_not_initialized, no_matching_instance,
  no_certificate, bad_certificate,
}

abbrev pub status_active : Bytes
status_active = codes "active"

abbrev pub is_host : Bytes → Option Bytes → Bool
is_host host none = false
is_host host (some h) = equal h host

-- Whether an instance is meant by the host of an URL.
unfoldable pub is_instance : Bytes → Detail → Bool
unfolding equal
is_instance host d =
    equal d.status status_active && (is_host host d.ip || is_host host d.external_host)

-- The loop of `getBrokerCN`, with the name that is empty where none is found.
unfoldable pub instance_cn : Bytes → List Detail → Bytes
unfolding is_instance
instance_cn host [] = []
instance_cn host (d ∷ ds) =
    let later = instance_cn host ds in if is_instance host d then d.common_name else later

unfoldable pub get_broker_cn : Bytes → Broker → CheckError ⊎ Bytes
unfolding instance_cn
get_broker_cn host b =
    if is_empty (instance_cn host b.details)
    then inl no_matching_instance
    else inr (instance_cn host b.details)

abbrev pub read_certificate : Option Bytes → CheckError ⊎ Bytes
read_certificate none = inl no_certificate
read_certificate (some cert) = inr cert

-- The contents in the answer of the API, which must not be empty.
abbrev pub ca_contents : Option (Option Bytes) → CheckError ⊎ Bytes
ca_contents none = inl no_certificate
ca_contents (some none) = inl no_certificate
ca_contents (some (some [])) = inl no_certificate
ca_contents (some (some (c ∷ contents))) = inr (c ∷ contents)

abbrev pub ca_of : Option (Option Bytes) → Option (Option Bytes) → CheckError ⊎ Bytes
ca_of none answered = ca_contents answered
ca_of (some file) answered = read_certificate file

-- `fetchBrokerCA`: the file if one is configured, and otherwise the API.
unfoldable pub fetch_broker_ca : Api → CheckError ⊎ Bytes
fetch_broker_ca api = ca_of api.ca_file api.get_ca

-- The parsers of URLs, addresses and certificates, and the check of a chain of certificates.
pub record Net : Type 0 where
  pub parse_url : Bytes → Option (Bytes × Bytes)
  pub resolve : Bytes → Option Bytes
  pub is_pem : Bytes → Bool
  pub is_chain : Bytes → List Bytes → Bool
  pub common_name_of : Bytes → Bytes

abbrev pub tls_with : Net → Bytes → CheckError ⊎ Bytes → CheckError ⊎ TlsConfig
tls_with net name (inl e) = inl e
tls_with net name (inr cert) =
    if not (net.is_pem cert)
    then inl bad_certificate
    else inr (record { server_name = name; roots = cert })

abbrev pub tls_named : Net → Api → CheckError ⊎ Bytes → CheckError ⊎ TlsConfig
tls_named net api (inl e) = inl e
tls_named net api (inr name) = tls_with net name (fetch_broker_ca api)

abbrev pub tls_of : Net → Api → Bytes → Option Broker → CheckError ⊎ TlsConfig
tls_of net api host none = inl broker_not_initialized
tls_of net api host (some b) = tls_named net api (get_broker_cn host b)

-- `brokerTLSConfig` for the host of an URL. (The name that it returns is the server's.)
unfoldable pub broker_tls_config : Net → Api → Bytes → Check → CheckError ⊎ TlsConfig
unfolding get_broker_cn fetch_broker_ca
broker_tls_config net api host c = tls_of net api host c.current_broker

-- `VerifyConnection`, to the certificates that the peer has sent. (TLS does not ask without any.)
unfoldable pub verify_connection : Net → TlsConfig → List Bytes → Bool
unfolding equal
verify_connection net cfg [] = false
verify_connection net cfg (cert ∷ certs) =
    equal (net.common_name_of cert) cfg.server_name && net.is_chain cfg.roots (cert ∷ certs)
