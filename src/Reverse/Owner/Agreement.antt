-- ===== src/Reverse/Owner/Agreement.antt =====
-- What is known of the owner that is found.
use circonus_agent.Prelude.{◌≡◌, ◌⊎◌, inl, inr, true, false, [], ◌∷◌, arith}
use circonus_agent.Prelude.Bytes.{Bytes, equal_refl, is_empty}
use circonus_agent.Reverse.Owner.{
  Configs, Reply, Asked, HostOf, read_reply, ask_instances, has_config, check_owner,
  find_primary_broker_instance, owner, fails, names,
}

check_owner-has_config :
    (cfgs : Configs) (a : Asked) {cn : Bytes}
    → check_owner cfgs a ≡ owner cn
    → has_config cn cfgs ≡ true
check_owner-has_config cfgs fails h = absurd (ground arith)
check_owner-has_config cfgs (names n) h = ground arith

-- The owner that is found is always one of the configured instances.
pub find_primary_broker_instance_configured :
    (host_of : HostOf) (ask : Bytes → Reply) (cfgs : Configs) (cn : Bytes)
    → find_primary_broker_instance host_of ask cfgs ≡ owner cn
    → has_config cn cfgs ≡ true
unfolding find_primary_broker_instance
find_primary_broker_instance_configured host_of ask [] cn h = absurd (ground arith)
find_primary_broker_instance_configured host_of ask (name ∷ []) cn h =
    unfold has_config in ground (arith, equal_refl name)
find_primary_broker_instance_configured host_of ask (name ∷ other ∷ cfgs) cn h =
    check_owner-has_config (name ∷ other ∷ cfgs) (ask_instances host_of ask (name ∷ other ∷ cfgs)) h

-- The instances agree on `o`: each names it or nobody.
abbrev pub Agree : HostOf → (Bytes → Reply) → Bytes → Configs → Type 0
Agree host_of ask o [] = Unit {0}
Agree host_of ask o (name ∷ cfgs) =
    ((read_reply host_of name (ask name) ≡ names [])
      ⊎ (read_reply host_of name (ask name) ≡ names o))
    × Agree host_of ask o cfgs

-- Some instance names `o`.
abbrev pub SomeNames : HostOf → (Bytes → Reply) → Bytes → Configs → Type 0
SomeNames host_of ask o [] = ⊥
SomeNames host_of ask o (name ∷ cfgs) =
    (read_reply host_of name (ask name) ≡ names o) ⊎ SomeNames host_of ask o cfgs

ask_instances_agreed :
    (host_of : HostOf) (ask : Bytes → Reply) (o : Bytes) (cfgs : Configs)
    → is_empty o ≡ false
    → Agree host_of ask o cfgs
    → SomeNames host_of ask o cfgs
    → ask_instances host_of ask cfgs ≡ names o
unfolding ask_instances
ask_instances_agreed host_of ask o [] e a s = absurd s
ask_instances_agreed host_of ask o (name ∷ cfgs) e (inr n, a) s = rw (n, ask_instances, e)
ask_instances_agreed host_of ask o (name ∷ cfgs) e (inl z, a) (inl n) = rw (n, ask_instances, e)
ask_instances_agreed host_of ask o (name ∷ cfgs) e (inl z, a) (inr s) =
    rw (z, ask_instances) (ask_instances_agreed host_of ask o cfgs e a s)

-- In a cluster whose reachable instances agree on the owner, and of which one at least names it, that
-- owner is found, in whatever order the instances are asked.
pub find_primary_broker_instance_agreed :
    (host_of : HostOf) (ask : Bytes → Reply) (o first second : Bytes) (cfgs : Configs)
    → is_empty o ≡ false
    → has_config o (first ∷ second ∷ cfgs) ≡ true
    → Agree host_of ask o (first ∷ second ∷ cfgs)
    → SomeNames host_of ask o (first ∷ second ∷ cfgs)
    → find_primary_broker_instance host_of ask (first ∷ second ∷ cfgs) ≡ owner o
unfolding find_primary_broker_instance
find_primary_broker_instance_agreed host_of ask o first second cfgs e c a s =
    rw (ask_instances_agreed host_of ask o (first ∷ second ∷ cfgs) e a s, e, c)
