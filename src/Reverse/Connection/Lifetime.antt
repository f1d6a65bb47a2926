-- ===== src/Reverse/Connection/Lifetime.antt =====
-- `Start` from the first connection to its return.
use circonus_agent.Prelude.{◌≡◌, refl, Bool, true, false, List, [], ◌∷◌, if◌then◌else◌}
use circonus_agent.Reverse.Command.{Connection}
use circonus_agent.Reverse.Connection.{
  Connected, connect, refresh_error, Next, serve, Session, Outcome, after_serving, start, connected,
  interrupted, conn_error, go_on, reconnect, finished, failed, running, returned_nil, returned,
}
use circonus_agent.Reverse.Connection.Backoff.{IsPaced, connect-IsPaced}
use circonus_agent.Reverse.Connection.Serving.{serve-IsPaced}

-- The cases of one round of `Start`, for a property of how it ends.
pub start_cases :
    (P : Outcome × Connection → Type 0) (s : Session) (ss : List Session) (c : Connection)
    → P (start ss (connect s.dial c).1)
    → P (start ss (serve s.rounds (connect s.dial c).1 s.reader).1)
    → P (returned refresh_error, (connect s.dial c).1)
    → P (returned_nil, (connect s.dial c).1)
    → ((o : Next)
        → (serve s.rounds (connect s.dial c).1 s.reader).0 ≡ o
        → P (after_serving true (running, c) (o, (serve s.rounds (connect s.dial c).1 s.reader).1)))
    → P (start (s ∷ ss) c)
unfolding start
start_cases P s ss c retried again refreshed stopped ended =
    go (connect s.dial c).0 s.done_connecting s.done_serving
      (serve s.rounds (connect s.dial c).1 s.reader).0 refl
  where
    served : Connection
    served = (serve s.rounds (connect s.dial c).1 s.reader).1

    go :
        (k : Connected) (dc ds : Bool) (o : Next)
        → (serve s.rounds (connect s.dial c).1 s.reader).0 ≡ o
        → P (elim k [
          | conn_error retry e ↦
              if retry
              then start ss (connect s.dial c).1
              else (returned refresh_error, (connect s.dial c).1)
          | interrupted ↦ (returned_nil, (connect s.dial c).1)
          | connected ↦
              if dc
              then (returned_nil, (connect s.dial c).1)
              else after_serving ds (start ss served) (o, served)
        ])
    go (conn_error true e) dc ds o q = retried
    go (conn_error false e) dc ds o q = refreshed
    go interrupted dc ds o q = stopped
    go connected true ds o q = stopped
    go connected false ds go_on q = ended go_on q
    go connected false true reconnect q = ended reconnect q
    go connected false false reconnect q = again
    go connected false ds finished q = ended finished q
    go connected false ds (failed x) q = ended (failed x) q

abbrev Paced : Outcome × Connection → Type 0
Paced p = IsPaced p.1

-- Through the whole life of a connection, whatever the broker, the agent and the schedule do, its
-- delay stays between one and ten seconds, and it makes at most three attempts without an answered request.
pub start-IsPaced : (ss : List Session) (c : Connection) → IsPaced c → IsPaced (start ss c).1
start-IsPaced [] c v = unfold start in v
start-IsPaced (s ∷ ss) c v =
    let met = connect-IsPaced s.dial c v in
    let served = serve-IsPaced s.rounds (connect s.dial c).1 s.reader met in
    start_cases Paced s ss c (start-IsPaced ss _ met) (start-IsPaced ss _ served) met met
      (ended _ served)
  where
    ended :
        (d : Connection)
        → IsPaced d
        → (o : Next) → (serve s.rounds (connect s.dial c).1 s.reader).0 ≡ o
        → Paced (after_serving true (running, c) (o, d))
    ended d w go_on e = w
    ended d w reconnect e = w
    ended d w finished e = w
    ended d w (failed x) e = w
