-- ===== src/Reverse/Supervisor/Refresh.antt =====
-- When `Start` refreshes the check, and how it ends.
use circonus_agent.Prelude.{
  ◌≡◌, refl, ◌≢◌, inl, inr, true, false, Option, none, some, List, arith, Bool-cases,
}
use circonus_agent.Prelude.Int.{ℤ}
use circonus_agent.Reverse.Connection.{
  Created, create, OpError, Session, Outcome, start, created, no_agent_address, no_config, running,
  returned_nil, returned,
}
use circonus_agent.Reverse.Connection.Outcomes.{start_errors_refresh}
use circonus_agent.Reverse.Owner.{
  Configs, Owner, HostOf, has_config, find_primary_broker_instance, request_failed, no_owner_found,
  invalid_owner, owner, owner_error,
}
use circonus_agent.Reverse.Supervisor.{
  Reverse, Lap, Turn, after_start, with_connection, with_owner, with_configs, supervise_round,
  again, stopped, stopped_by, serving,
}

-- How a turn relates to the state that it began in, once its configurations are known.
abbrev Keeps : Reverse → Turn → Type 0
Keeps v (again w) =
    (w.configs ≡ v.configs)
    × (w.cancelled ≡ v.cancelled)
    × (w.enabled ≡ v.enabled)
    × (w.agent_address ≡ v.agent_address)
Keeps v stopped = ⊥
Keeps v (stopped_by e) = Unit {0}
Keeps v (serving w) = Unit {0}

after_start-Keeps :
    (o : Outcome) (v : Reverse)
    → ((x : OpError) → o ≡ returned x → (x.refresh_check ≡ true) × (x.fatal ≡ false))
    → Keeps v (after_start o v)
after_start-Keeps running v h = tt
after_start-Keeps returned_nil v h = (refl, refl, refl, refl)
after_start-Keeps (returned e) v h = rw ((h e refl).1, (h e refl).0) (refl, refl, refl, refl)

with_connection-Keeps :
    (k : Created) (ss : List Session) (v : Reverse) → Keeps v (with_connection k ss v)
with_connection-Keeps (created c) ss v =
    after_start-Keeps (start ss c).0 v (start_errors_refresh ss c)
with_connection-Keeps no_agent_address ss v = tt
with_connection-Keeps no_config ss v = tt

with_owner-Keeps :
    (retries : ℤ) (x : Lap) (cfgs : Configs) (o : Owner) (v : Reverse)
    → Keeps v (with_owner retries x cfgs o v)
with_owner-Keeps retries x cfgs (owner_error no_owner_found) v = (refl, refl, refl, refl)
with_owner-Keeps retries x cfgs (owner_error request_failed) v = tt
with_owner-Keeps retries x cfgs (owner_error invalid_owner) v = tt
with_owner-Keeps retries x cfgs (owner cn) v = elim (Bool-cases (has_config cn cfgs)) [
  | inl known ↦ rw known (with_connection-Keeps (create v.agent_address true retries) x.sessions v)
  | inr unknown ↦ rw unknown (refl, refl, refl, refl)
]

-- With what configurations a turn works.
abbrev Uses : Reverse → Option Configs → Turn → Type 0
Uses v cfgs (again w) = (w.configs ≡ cfgs) × (cfgs ≢ none) × (w.cancelled ≡ v.cancelled)
Uses v cfgs stopped = ⊥
Uses v cfgs _ = Unit {0}

with_configs-Uses :
    (host_of : HostOf) (retries : ℤ) (x : Lap) (o : Option Configs) (v : Reverse)
    → Uses v o (with_configs host_of retries x o v)
with_configs-Uses host_of retries x none v = tt
with_configs-Uses host_of retries x (some cfgs) v =
    go (with_owner retries x cfgs (find_primary_broker_instance host_of x.ask cfgs) w)
      (with_owner-Keeps retries x cfgs (find_primary_broker_instance host_of x.ask cfgs) w)
  where
    w : Reverse
    w = record v { configs = some cfgs; refresh_check = false }

    go :
        (t : Turn)
        → Keeps (record v { configs = some cfgs; refresh_check = false }) t
        → Uses v (some cfgs) t
    go (again u) k = (k.0, (λ e. cc), k.1)
    go stopped k = k
    go (stopped_by e) k = tt
    go (serving u) k = tt

-- After an error that asks for a refresh the next turn of the loop goes on only with configurations
-- that were fetched after the check was refreshed. Without one the configurations stay as they are.
-- No turn that goes on cancels: the connections end the loop by no fatal error.
pub supervise_round_refreshes :
    (host_of : HostOf) (retries : ℤ) (x : Lap) (v w : Reverse)
    → supervise_round host_of retries x v ≡ again w
    → (w.cancelled ≡ false)
      × (x.done ≡ false)
      × (w.configs ≢ none)
      × (v.refresh_check ≡ true → (x.refreshed ≡ true) × (w.configs ≡ x.new_configs))
      × (v.refresh_check ≡ false → w.configs ≡ v.configs)
unfolding supervise_round
supervise_round_refreshes host_of retries x v w h = ground (
  arith,
  with_configs-Uses host_of retries x x.new_configs v,
  with_configs-Uses host_of retries x v.configs v,
)
