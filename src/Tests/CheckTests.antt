-- ===== src/Tests/CheckTests.antt =====
-- The check at concrete answers of the API.
use circonus_agent.Prelude.{
  ℕ, ◌≤◌, ◌≡◌, refl, inl, inr, Bool, true, false, none, some, List, [], ◌∷◌, ◌++◌, length,
}
use circonus_agent.Prelude.Bytes.{Bytes, codes}
use circonus_agent.Check.Config.{
  CheckData, Detail, Broker, Api, Check, check_cid, no_matching_instance, index_panic,
}
use circonus_agent.Check.Broker.{get_broker_cn, Net}
use circonus_agent.Check.Refresh.{refresh_reverse_config, no_check}
use circonus_agent.Check.Matching.{IsMatched, refresh_reverse_config-IsMatched}
use circonus_agent.Check.Complete.{Fresh, refresh_reverse_config-Fresh}
use circonus_agent.Check.Select.{BrokerInfo, DialTimes, is_valid_broker, select_broker}
use circonus_agent.Check.Fastest.{select_broker_fastest}
use circonus_agent.Check.Bundle.{full_cid, put_tags}

abbrev first_instance : Detail
first_instance = record {
  status = codes "active";
  ip = some (codes "10.0.0.1");
  external_host = none;
  common_name = codes "b1";
}

abbrev second_instance : Detail
second_instance = record {
  status = codes "active";
  ip = none;
  external_host = some (codes "b.example");
  common_name = codes "b2";
}

abbrev two_instances : Broker
two_instances = record {
  broker_id = codes "/broker/1";
  details =
      record first_instance { status = codes "retired"; common_name = codes "b0" }
      ∷ first_instance
      ∷ second_instance
      ∷ [];
}

abbrev one_url : CheckData
one_url = record {
  cid = codes "/check/1";
  bundle_cid = codes "/check_bundle/1";
  check_uuid = codes "u";
  broker_cid = codes "/broker/1";
  is_active = true;
  reverse_urls = codes "mtev_reverse://b" ∷ [];
}

abbrev answering : Api
answering = record {
  fetch_check = λ cid. some one_url;
  fetch_broker = λ cid. some two_instances;
  ca_file = none;
  get_ca = some (some (codes "pem"));
}

-- Every URL has one of the hosts.
abbrev to_host : Bytes → Net
to_host host = record {
  parse_url = λ url. some (host ++ codes ":43191", host);
  resolve = λ a. some a;
  is_pem = λ cert. true;
  is_chain = λ roots certs. true;
  common_name_of = λ cert. cert;
}

abbrev one_check : Check
one_check = record no_check {
  check_bundle = some (some (record { check_cids = codes "/check/1" ∷ []; period = 60 }));
}

first_name : get_broker_cn (codes "10.0.0.1") two_instances ≡ inr (codes "b1")
unfolding get_broker_cn
first_name = refl

unknown_host :
    (refresh_reverse_config (to_host (codes "c")) answering one_check).0 ≡ some no_matching_instance
unfolding refresh_reverse_config
unknown_host = refl

index_of_length :
    check_cid 1 (some (record { check_cids = codes "/check/1" ∷ []; period = 60 }))
    ≡ inl index_panic
unfolding check_cid
index_of_length = refl

abbrev refreshed : Check
refreshed = (refresh_reverse_config (to_host (codes "b.example")) answering one_check).1

refresh_reverse_config-IsMatched_example : IsMatched refreshed
refresh_reverse_config-IsMatched_example =
    refresh_reverse_config-IsMatched (to_host (codes "b.example")) answering one_check tt

refresh_reverse_config-Fresh_example : Fresh (to_host (codes "b.example")) answering refreshed
unfolding refresh_reverse_config
refresh_reverse_config-Fresh_example =
    refresh_reverse_config-Fresh (to_host (codes "b.example")) answering one_check refreshed refl

abbrev at_host : Bytes → Bytes → BrokerInfo
at_host cid host = record {
  broker_cid = cid;
  broker_type = codes "enterprise";
  instances =
      record {
        instance_status = codes "active";
        modules = codes "json" ∷ codes "httptrap" ∷ [];
        external_port = 0;
        port = none;
        instance_host = some host;
        instance_ip = none;
      }
      ∷ [];
}

abbrev two_brokers : List BrokerInfo
two_brokers =
    at_host (codes "/broker/1") (codes "b1") ∷ at_host (codes "/broker/2") (codes "b") ∷ []

-- An attempt takes as long as the name of the host is.
abbrev by_name : DialTimes
by_name host p n = some (length host)

select_broker_fastest_example :
    (own : ℕ) × (is_valid_broker by_name true
        (codes "json:nad")
        (at_host (codes "/broker/2") (codes "b"))
      ≡ some own)
    × (own ≤ 2)
    × (true ≡ true)
unfolding select_broker
select_broker_fastest_example =
    select_broker_fastest by_name (λ n. 0) true (codes "json:nad") two_brokers
      (at_host (codes "/broker/2") (codes "b")) (at_host (codes "/broker/1") (codes "b1")) 2 refl
      (inl refl) refl

abbrev host_only : Bool × List Bytes
host_only =
    put_tags (codes "os:linux" ∷ codes "arch:arm" ∷ [])
      (false, codes "os:bsd" ∷ codes "team:x" ∷ [])

host_tag_replaced : host_only ≡ (true, codes "os:linux" ∷ codes "team:x" ∷ codes "arch:arm" ∷ [])
unfolding put_tags
host_tag_replaced = refl

full_number : full_cid (codes "12") ≡ codes "/check_bundle/12"
unfolding full_cid
full_number = refl
