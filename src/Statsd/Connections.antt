-- ===== src/Statsd/Connections.antt =====
-- internal/statsd/statsd.go: the TCP connections that are tracked.
use circonus_agent.Prelude.{
  ℕ, ◌+◌, ◌≤◌, ◌≡◌, Bool, true, false, none, List, [], ◌∷◌, arith, ltb, if◌then◌else◌, length,
}
use circonus_agent.Prelude.Bytes.{Bytes, equal}
use circonus_agent.Prelude.Strconv.{lookup, assign}

-- The map from remote addresses; the connections themselves are not looked at.
abbrev pub Tracked : Type 0
Tracked = List (Bytes × Unit {0})

-- What happens to the map: a client connects, or one's reader ends.
pub data Event : Type 0 where
  connects : Bytes → Event
  ends : Bytes → Event

unfoldable pub tcp_add_connection : Bytes → Tracked → Tracked
unfolding assign
tcp_add_connection addr t = assign addr tt t

-- `delete(m, id)`.
unfoldable pub tcp_remove_connection : Bytes → Tracked → Tracked
unfolding equal
tcp_remove_connection addr [] = []
tcp_remove_connection addr ((a, u) ∷ t) =
    let rest = tcp_remove_connection addr t in if equal a addr then rest else (a, u) ∷ rest

-- One round of `tcpHandler`: whether the client is let in.
unfoldable pub tcp_accept : ℕ → Bytes → Tracked → Bool × Tracked
unfolding tcp_add_connection
tcp_accept max_connections addr t =
    if ltb max_connections (length t) then (false, t) else (true, tcp_add_connection addr t)

abbrev pub tcp_event : ℕ → Event → Tracked → Tracked
tcp_event max_connections (connects addr) t = (tcp_accept max_connections addr t).1
tcp_event max_connections (ends addr) t = tcp_remove_connection addr t

unfoldable pub tcp_run : ℕ → List Event → Tracked → Tracked
tcp_run max_connections [] t = t
tcp_run max_connections (e ∷ es) t = tcp_run max_connections es (tcp_event max_connections e t)

length-tcp_add_connection :
    (addr : Bytes) (t : Tracked) → length (tcp_add_connection addr t) ≤ length t + 1
unfolding tcp_add_connection
length-tcp_add_connection addr [] = omega arith
length-tcp_add_connection addr ((a, u) ∷ t) = ground (arith, length-tcp_add_connection addr t)

length-tcp_remove_connection :
    (addr : Bytes) (t : Tracked) → length (tcp_remove_connection addr t) ≤ length t
unfolding tcp_remove_connection
length-tcp_remove_connection addr [] = omega arith
length-tcp_remove_connection addr ((a, u) ∷ t) = ground (arith, length-tcp_remove_connection addr t)

tcp_event_bound :
    (max_connections : ℕ) (e : Event) (t : Tracked)
    → length t ≤ max_connections + 1
    → length (tcp_event max_connections e t) ≤ max_connections + 1
unfolding tcp_accept
tcp_event_bound m (connects addr) t h = ground (arith, length-tcp_add_connection addr t)
tcp_event_bound m (ends addr) t h = ground (arith, length-tcp_remove_connection addr t)

-- Through any sequence of clients that connect and end, never more than one above the configured number
-- of connections are tracked.
pub tcp_run_bound :
    (max_connections : ℕ) (es : List Event) (t : Tracked)
    → length t ≤ max_connections + 1
    → length (tcp_run max_connections es t) ≤ max_connections + 1
unfolding tcp_run
tcp_run_bound m [] t h = h
tcp_run_bound m (e ∷ es) t h = tcp_run_bound m es (tcp_event m e t) (tcp_event_bound m e t h)

length-assign_new :
    (addr : Bytes) (t : Tracked)
    → lookup addr t ≡ none
    → length (tcp_add_connection addr t) ≡ length t + 1
unfolding tcp_add_connection lookup
length-assign_new addr [] n = omega arith
length-assign_new addr ((a, u) ∷ t) n = ground (arith, length-assign_new addr t)

-- The bug: with the configured number of connections tracked, one more client is let in.
pub tcp_accept_over :
    (max_connections : ℕ) (addr : Bytes) (t : Tracked)
    → length t ≡ max_connections
    → lookup addr t ≡ none
    → ((tcp_accept max_connections addr t).0 ≡ true)
      × (length (tcp_accept max_connections addr t).1 ≡ max_connections + 1)
unfolding tcp_accept
tcp_accept_over m addr t l n = ground (arith, length-assign_new addr t)
