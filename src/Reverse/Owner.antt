-- ===== src/Reverse/Owner.antt =====
-- internal/check/reverse.go: which broker of a cluster owns the check.
pub mod Agreement
use circonus_agent.Prelude.{
  Bool, true, false, ◌||◌, Option, none, some, List, [], ◌∷◌, if◌then◌else◌,
}
use circonus_agent.Prelude.Bytes.{Bytes, equal, is_empty}

-- The reverse configurations, by the common name of their broker instance, in the order in which a
-- loop over the map visits them. What else a configuration holds is not looked at here.
abbrev pub Configs : Type 0
Configs = List Bytes

-- What comes of asking one instance who the owner is: no request could be made, the request failed (by
-- a timeout or not), 204, 302 with its `Location`, or another status.
pub data Reply : Type 0 where
  no_request : Reply
  no_response : Bool → Reply
  no_content : Reply
  found : Bytes → Reply
  other_status : Reply

pub data OwnerError : Type 0 where
  request_failed no_owner_found invalid_owner : OwnerError

pub data Owner : Type 0 where
  owner : Bytes → Owner
  owner_error : OwnerError → Owner

-- What the loop does behind one reply: it fails, or has a name, which is empty where it has none.
pub data Asked : Type 0 where
  fails : Asked
  names : Bytes → Asked

-- `net/url`'s reading of a location: its host without the port, if it can be parsed.
abbrev pub HostOf : Type 0
HostOf = Bytes → Option Bytes

abbrev host_or_none : Option Bytes → Asked
host_or_none none = names []
host_or_none (some host) = names host

unfoldable pub read_reply : HostOf → Bytes → Reply → Asked
read_reply host_of name no_request = fails
read_reply host_of name (no_response true) = names []
read_reply host_of name (no_response false) = fails
read_reply host_of name no_content = names name
read_reply host_of name (found location) =
    if is_empty location then names [] else host_or_none (host_of location)
read_reply host_of name other_status = names []

-- The loop over the instances of a cluster, which ends at the first name.
unfoldable pub ask_instances : HostOf → (Bytes → Reply) → Configs → Asked
ask_instances host_of ask [] = names []
ask_instances host_of ask (name ∷ cfgs) =
    let later = ask_instances host_of ask cfgs in
    elim (read_reply host_of name (ask name)) [
      | fails ↦ fails
      | names cn ↦ if is_empty cn then later else names cn
    ]

-- `_, ok := cfgs[cn]`.
unfoldable pub has_config : Bytes → Configs → Bool
has_config cn [] = false
has_config cn (name ∷ cfgs) = equal name cn || has_config cn cfgs

abbrev pub check_owner : Configs → Asked → Owner
check_owner cfgs fails = owner_error request_failed
check_owner cfgs (names cn) =
    if is_empty cn
    then owner_error no_owner_found
    else if has_config cn cfgs
    then owner cn
    else owner_error invalid_owner

unfoldable pub find_primary_broker_instance : HostOf → (Bytes → Reply) → Configs → Owner
unfolding ask_instances
find_primary_broker_instance host_of ask (name ∷ []) = owner name
find_primary_broker_instance host_of ask cfgs = check_owner cfgs (ask_instances host_of ask cfgs)
