-- ===== src/Reverse/Connection/Backoff.antt =====
-- Connection attempts and the delay between them.
use circonus_agent.Prelude.{ℕ, ◌+◌, ◌-◌, ◌*◌, ◌≤◌, ◌<◌, ◌≡◌, ◌⊎◌, arith}
use circonus_agent.Reverse.Command.{Connection}
use circonus_agent.Reverse.Connection.{
  second, max_delay, max_delay_step, config_retry_limit, get_next_delay, reset_connection_attempts,
  DialOutcome, Dial, after_dial, delayed, connect, dialled,
}

-- The delay stays between one and ten seconds, at one second until an attempt has been made, and
-- there are never more attempts than the limit at which the check is refreshed.
pub record IsPaced (c : Connection) : Type 0 where
  pub at_least : second ≤ c.delay
  pub at_most : c.delay ≤ max_delay
  pub few : c.conn_attempts ≤ config_retry_limit
  pub fresh : c.conn_attempts ≡ 0 → c.delay ≡ second

get_next_delay_bounds :
    (random delay : ℕ)
    → second ≤ delay
    → delay ≤ max_delay
    → (second ≤ get_next_delay random delay) × (get_next_delay random delay ≤ max_delay)
unfolding get_next_delay
get_next_delay_bounds random delay l u = ground arith

-- Below the maximum the delay grows by one to six seconds, cut at ten; from the maximum it starts over
-- at one. It never grows by the seven seconds that `MaxDelayStep` names.
pub get_next_delay_steps :
    (random delay : ℕ)
    → delay ≤ max_delay
    → ((delay ≡ max_delay) × (get_next_delay random delay ≡ second))
      ⊎ ((delay < get_next_delay random delay)
          × (get_next_delay random delay ≤ max_delay)
          × (get_next_delay random delay ≤ delay + (max_delay_step - 1) * second))
unfolding get_next_delay
get_next_delay_steps random delay u = ground arith

reset_connection_attempts-IsPaced :
    {c : Connection} → IsPaced c → IsPaced (reset_connection_attempts c)
unfolding reset_connection_attempts
reset_connection_attempts-IsPaced v = ground arith

dial_broker-IsPaced :
    (o : DialOutcome) (c : Connection)
    → second ≤ c.delay
    → c.delay ≤ max_delay
    → c.conn_attempts < config_retry_limit
    → IsPaced (after_dial o (record c { conn_attempts = c.conn_attempts + 1 })).1
dial_broker-IsPaced dialled c l u h = record {
  at_least = l;
  at_most = u;
  few = omega arith;
  fresh = λ e. absurd (omega arith);
}
dial_broker-IsPaced _ c l u h = record {
  at_least = l;
  at_most = u;
  few = omega arith;
  fresh = λ e. absurd (omega arith);
}

-- Whatever a call of `connect` meets, it leaves a paced connection paced.
pub connect-IsPaced : (d : Dial) (c : Connection) → IsPaced c → IsPaced (connect d c).1
unfolding connect
connect-IsPaced d c v =
    let b = get_next_delay_bounds d.random c.delay v.at_least v.at_most in
    ground (
      arith,
      λ (h : c.conn_attempts < config_retry_limit).
          dial_broker-IsPaced d.outcome c v.at_least v.at_most h,
      λ (h : c.conn_attempts < config_retry_limit).
          dial_broker-IsPaced d.outcome (delayed d c) b.0 b.1 h,
    )
