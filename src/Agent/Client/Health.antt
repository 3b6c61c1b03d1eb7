-- ===== src/Agent/Client/Health.antt =====
-- cli/jprqc.go, `Start` and `serveHealth`: when the probe succeeds.
use jprq_bek.Base.{
  ◌≡◌, ◌↔◌, refl, String, ◌==◌, eq_iff, Bool, Bool-cases, true, List, [], ◌∷◌, ◌++◌, Option, none,
  some, Result, ok, err, inl, inr, ℤ, arith,
}
use jprq_bek.Agent.ExitCodes.{exit_event_stream_dropped}
use jprq_bek.Agent.Client.{
  Client, Session, TunnelOpened, ConnectionReceived, Progress, request, receive, open_tunnel,
  after_send, after_dial, start, healthz,
}
use jprq_bek.Agent.Client.Ends.{Breaks, breaks_now, breaks_later, dropped, ExitReason-start}

module _ (j : Client) (port : ℤ) (debug : Bool) (session : Session) where
  -- The tunnel is open.
  pub record Opened : Type 0 where
    pub answer : TunnelOpened
    pub dialed : session.dial j.config.remote.events ≡ none
    pub sent : session.send (request j) ≡ none
    pub answered : session.opened ≡ ok answer
    pub accepted : answer.error_message ≡ ""

  receive-healthy :
      (p : Progress) (stream : List (Result ConnectionReceived))
      → (receive p stream).healthy ≡ p.healthy
  unfolding receive
  receive-healthy p [] = refl
  receive-healthy p (err e ∷ stream) = refl
  receive-healthy p (ok event ∷ stream) =
      receive-healthy (record p { handled = p.handled ++ event ∷ [] }) stream

  open_tunnel-Opened :
      (answer : Result TunnelOpened)
      → session.dial j.config.remote.events ≡ none
      → session.send (request j) ≡ none
      → session.opened ≡ answer
      → (open_tunnel j port debug session answer).healthy ≡ true
      → Opened
  unfolding open_tunnel
  open_tunnel-Opened (err e) d s o h = absurd (ground arith)
  open_tunnel-Opened (ok t) d s o h = elim (Bool-cases (t.error_message == "")) [
    | inl empty ↦ record {
      answer = t;
      dialed = d;
      sent = s;
      answered = o;
      accepted = (eq_iff _ _).0 empty;
    }
    | inr message ↦ cc (rw message at h)
  ]

  after_send-Opened :
      (answer : Option String)
      → session.dial j.config.remote.events ≡ none
      → session.send (request j) ≡ answer
      → (after_send j port debug session answer).healthy ≡ true
      → Opened
  unfolding after_send
  after_send-Opened (some e) d s h = cc
  after_send-Opened none d s h = open_tunnel-Opened session.opened d s refl h

  after_dial-Opened :
      (answer : Option String)
      → session.dial j.config.remote.events ≡ answer
      → (after_dial j port debug session answer).healthy ≡ true
      → Opened
  unfolding after_dial
  after_dial-Opened (some e) d h = cc
  after_dial-Opened none d h = after_send-Opened (session.send (request j)) d refl h

  Opened-healthy : Opened → (start j port debug session).healthy ≡ true
  unfolding start after_dial after_send open_tunnel
  Opened-healthy o =
      rw (o.dialed, o.sent, o.answered, (eq_iff _ _).1 o.accepted)
        (receive-healthy _ session.stream)

  healthz-running : (p : Progress) → healthz p ≡ some 200 → (p.healthy ≡ true) × (p.exit ≡ none)
  unfolding healthz
  healthz-running p h = ground arith

  running-healthz : (p : Progress) → p.healthy ≡ true → p.exit ≡ none → healthz p ≡ some 200
  unfolding healthz
  running-healthz p h k = ground arith

  broken_ended : (p : Progress) → p.exit ≡ none → (c : ℤ) → p.exit ≡ some c → ⊥
  broken_ended p n c h = ground arith

  Opened-unbroken : Opened → (start j port debug session).exit ≡ none → Breaks session.stream → ⊥
  Opened-unbroken o n b = broken_ended (start j port debug session) n exit_event_stream_dropped (
      ExitReason-start j port debug session exit_event_stream_dropped
        (dropped o.answer refl o.dialed o.sent o.answered o.accepted b))

  receive-unbroken :
      (p : Progress) (stream : List (Result ConnectionReceived))
      → p.exit ≡ none
      → (Breaks stream → ⊥)
      → (receive p stream).exit ≡ none
  unfolding receive
  receive-unbroken p [] n u = n
  receive-unbroken p (err e ∷ stream) n u = absurd (u (breaks_now e stream))
  receive-unbroken p (ok event ∷ stream) n u =
      receive-unbroken (record p { handled = p.handled ++ event ∷ [] }) stream n
        (λ b. u (breaks_later event stream b))

  Opened-running : Opened → (Breaks session.stream → ⊥) → (start j port debug session).exit ≡ none
  unfolding start after_dial after_send open_tunnel
  Opened-running o u =
      rw (o.dialed, o.sent, o.answered, (eq_iff _ _).1 o.accepted)
        (receive-unbroken _ session.stream refl u)

  start-Opened : (start j port debug session).healthy ≡ true → Opened
  unfolding start
  start-Opened h = after_dial-Opened (session.dial j.config.remote.events) refl h

  -- The probe is honest: /healthz answers 200 exactly when the event server was reached, took the
  -- request, and opened the tunnel with no error message, and no error has been read from the stream of
  -- events since, so that the loop is running.
  pub healthz_iff :
      (healthz (start j port debug session) ≡ some 200) ↔ (Opened × ¬ Breaks session.stream)
  healthz_iff = (
    λ h.
        let (healthy, running) = healthz-running _ h in
        let o = start-Opened healthy in (o, Opened-unbroken o running),
    λ o. running-healthz _ (Opened-healthy o.0) (Opened-running o.0 o.1),
  )
