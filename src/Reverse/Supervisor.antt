-- ===== src/Reverse/Supervisor.antt =====
-- internal/reverse/reverse.go: connections to the broker that owns the check, one after another.
pub mod Refresh
use circonus_agent.Prelude.{
  Bool, true, false, not, ◌||◌, Option, none, some, List, [], ◌∷◌, if◌then◌else◌,
}
use circonus_agent.Prelude.Int.{ℤ}
use circonus_agent.Prelude.Bytes.{Bytes}
use circonus_agent.Reverse.Connection.{
  Created, create, Session, Outcome, start, created, no_agent_address, no_config, running,
  returned_nil, returned,
}
use circonus_agent.Reverse.Owner.{
  Configs, Reply, OwnerError, Owner, HostOf, has_config, find_primary_broker_instance,
  no_owner_found, owner, owner_error,
}

-- `Reverse`, with the variables of `Start`. `cancelled` is set by its own `cancel()`.
pub record Reverse : Type 0 where
  pub agent_address : Bytes
  pub enabled : Bool
  pub configs : Option Configs
  pub refresh_check : Bool
  pub cancelled : Bool

-- What one round of `Start` meets: whether the context that it was given is done, whether the check can
-- be refreshed, the configurations afterwards, the replies on the owner, and the life of a connection.
pub record Lap : Type 0 where
  pub done : Bool
  pub refreshed : Bool
  pub new_configs : Option Configs
  pub ask : Bytes → Reply
  pub sessions : List Session

pub data SupervisorError : Type 0 where
  no_configs zero_configs refresh_failed get_configs_failed : SupervisorError
  find_failed : OwnerError → SupervisorError
  new_conn_failed : SupervisorError

pub data Turn : Type 0 where
  again : Reverse → Turn
  stopped : Turn
  stopped_by : SupervisorError → Turn
  serving : Reverse → Turn

abbrev to_refresh : Reverse → Reverse
to_refresh v = record v { refresh_check = true }

-- Behind `rc.Start`: a fatal error cancels, another may ask for a refresh.
abbrev pub after_start : Outcome → Reverse → Turn
after_start running v = serving v
after_start returned_nil v = again v
after_start (returned e) v =
    if e.fatal
    then again (record v { cancelled = true })
    else if e.refresh_check
    then again (to_refresh v)
    else again v

abbrev pub with_connection : Created → List Session → Reverse → Turn
with_connection (created c) ss v = after_start (start ss c).0 v
with_connection no_agent_address ss v = stopped_by new_conn_failed
with_connection no_config ss v = stopped_by new_conn_failed

-- Behind `FindPrimaryBrokerInstance`, with the configurations that it looked at.
abbrev pub with_owner : ℤ → Lap → Configs → Owner → Reverse → Turn
with_owner retries x cfgs (owner_error no_owner_found) v = again (to_refresh v)
with_owner retries x cfgs (owner_error e) v = stopped_by (find_failed e)
with_owner retries x cfgs (owner cn) v =
    if has_config cn cfgs
    then with_connection (create v.agent_address true retries) x.sessions v
    else again (to_refresh v)

abbrev pub with_configs : HostOf → ℤ → Lap → Option Configs → Reverse → Turn
with_configs host_of retries x none v = stopped_by get_configs_failed
with_configs host_of retries x (some cfgs) v =
    with_owner retries x cfgs (find_primary_broker_instance host_of x.ask cfgs)
      (record v { configs = some cfgs; refresh_check = false })

-- One round of the loop of `Start`; `retries` is the configured number.
unfoldable pub supervise_round : HostOf → ℤ → Lap → Reverse → Turn
supervise_round host_of retries x v =
    if v.cancelled || x.done
    then stopped
    else if v.refresh_check
    then if not x.refreshed
      then stopped_by refresh_failed
      else with_configs host_of retries x x.new_configs v
    else with_configs host_of retries x v.configs v

unfoldable pub supervise : HostOf → ℤ → List Lap → Reverse → Turn
supervise host_of retries [] v = serving v
supervise host_of retries (x ∷ xs) v =
    let turn = supervise_round host_of retries x v in
    elim turn [ again w ↦ supervise host_of retries xs w | other ↦ other ]

abbrev starting : HostOf → ℤ → List Lap → Reverse → Option Configs → Turn
starting host_of retries xs v none = stopped_by no_configs
starting host_of retries xs v (some []) = stopped_by zero_configs
starting host_of retries xs v (some (_ ∷ _)) =
    supervise host_of retries xs (record v { refresh_check = false; cancelled = false })

-- `Start`, over the rounds that the schedule gives it.
unfoldable pub start_reverse : HostOf → ℤ → List Lap → Reverse → Turn
unfolding supervise
start_reverse host_of retries xs v =
    if not v.enabled then stopped else starting host_of retries xs v v.configs
