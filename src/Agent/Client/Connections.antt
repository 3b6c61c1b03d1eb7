-- ===== src/Agent/Client/Connections.antt =====
-- cli/jprqc.go: the connections that are handed to `handleEvent`.
use mathlib.Core.List.{append_assoc, append-nil}
use jprq_bek.Base.{sym, ◌∙◌, eq_iff, ◌++◌, Result, ok, err, ℤ, Bool, ◌≡◌, List, [], ◌∷◌}
use jprq_bek.Agent.Client.{
  Client, Session, ConnectionReceived, Progress, receive, open_tunnel, after_send, after_dial,
  start,
}
use jprq_bek.Agent.Client.Health.{Opened}

-- The connections before the first error.
unfoldable pub received : List (Result ConnectionReceived) → List ConnectionReceived
received [] = []
received (err e ∷ stream) = []
received (ok event ∷ stream) = event ∷ received stream

receive-handled :
    (p : Progress) (stream : List (Result ConnectionReceived))
    → (receive p stream).handled ≡ p.handled ++ received stream
unfolding receive received
receive-handled p [] = sym (append-nil p.handled)
receive-handled p (err e ∷ stream) = sym (append-nil p.handled)
receive-handled p (ok event ∷ stream) =
    receive-handled (record p { handled = p.handled ++ event ∷ [] }) stream
    ∙ append_assoc p.handled (event ∷ []) (received stream)

-- No connection is lost: once the tunnel is open, the connections that are handed to `handleEvent` are
-- just those that come before the first error of the stream, each once, in their order.
pub start-received :
    (j : Client) (port : ℤ) (debug : Bool) (session : Session)
    → Opened j port debug session
    → (start j port debug session).handled ≡ received session.stream
unfolding start after_dial after_send open_tunnel
start-received j port debug session o =
    rw (o.dialed, o.sent, o.answered, (eq_iff _ _).1 o.accepted) (receive-handled _ session.stream)
