-- ===== src/Agent/Client/Ends.antt =====
-- cli/jprqc.go, `Start`: why the agent ends, and what the controller makes of it.
use jprq_bek.Base.{
  ◌≡◌, ◌≢◌, ◌↔◌, ◌⊎◌, refl, sym, ap, ◌∙◌, String, ◌==◌, eq_iff, Bool, Bool-cases, true, false, List,
  [], ◌∷◌, ◌++◌, Option, none, some, Result, ok, err, inl, inr, ℤ, arith,
}
use mathlib.Core.Option.{some-injective}
use jprq_bek.Api.{CollisionBehavior}
use jprq_bek.Agent.ExitCodes.{exit_event_server_unreachable, exit_event_stream_dropped}
use jprq_bek.Agent.ServerError.{exit_code_for_server_error}
use jprq_bek.Agent.Client.{
  Client, Session, TunnelOpened, ConnectionReceived, Progress, request, receive, open_tunnel,
  after_send, after_dial, start,
}
use jprq_bek.Controller.Classify.{classify_exit}
use jprq_bek.Controller.Classify.Messages.{IsUnknown, is_unknown_error, ServerError-verdict}

-- The codes for the network's failures are not terminal.
transport_retries :
    (code : ℤ) (b : CollisionBehavior)
    → (code ≡ exit_event_server_unreachable) ⊎ (code ≡ exit_event_stream_dropped)
    → (classify_exit code b).terminal ≡ true
    → ⊥
unfolding classify_exit
transport_retries code b (inl c) h = cc (rw c at h)
transport_retries code b (inr c) h = cc (rw c at h)

unknown_retries :
    (m : String) (b : CollisionBehavior)
    → IsUnknown m
    → (classify_exit (exit_code_for_server_error m) b).terminal ≡ true
    → ⊥
unknown_retries m b u h = cc ((ServerError-verdict m b (is_unknown_error u)).terminal_is)

-- An error is read from the stream, after connections alone.
pub data Breaks : List (Result ConnectionReceived) → Type 0 where
  breaks_now : (e : String) (stream : List (Result ConnectionReceived)) → Breaks (err e ∷ stream)
  breaks_later :
      (event : ConnectionReceived) (stream : List (Result ConnectionReceived))
      → Breaks stream
      → Breaks (ok event ∷ stream)

module _ (j : Client) (port : ℤ) (debug : Bool) (session : Session) where
  -- Why the agent ends with a code.
  pub data ExitReason (code : ℤ) : Type 0 where
    undialed :
        (e : String)
        → code ≡ exit_event_server_unreachable
        → session.dial j.config.remote.events ≡ some e
        → ExitReason code
    unsent :
        (e : String)
        → code ≡ exit_event_server_unreachable
        → session.dial j.config.remote.events ≡ none
        → session.send (request j) ≡ some e
        → ExitReason code
    unanswered :
        (e : String)
        → code ≡ exit_event_server_unreachable
        → session.dial j.config.remote.events ≡ none
        → session.send (request j) ≡ none
        → session.opened ≡ err e
        → ExitReason code
    rejected :
        (t : TunnelOpened)
        → code ≡ exit_code_for_server_error t.error_message
        → session.dial j.config.remote.events ≡ none
        → session.send (request j) ≡ none
        → session.opened ≡ ok t
        → t.error_message ≢ ""
        → ExitReason code
    dropped :
        (t : TunnelOpened)
        → code ≡ exit_event_stream_dropped
        → session.dial j.config.remote.events ≡ none
        → session.send (request j) ≡ none
        → session.opened ≡ ok t
        → t.error_message ≡ ""
        → Breaks session.stream
        → ExitReason code

  receive-exit :
      (p : Progress) (stream : List (Result ConnectionReceived)) (code : ℤ)
      → p.exit ≡ none
      → (receive p stream).exit ≡ some code
      → (code ≡ exit_event_stream_dropped) × Breaks stream
  unfolding receive
  receive-exit p [] code n h = absurd (ground arith)
  receive-exit p (err e ∷ stream) code n h = (some-injective _ _ (sym h), breaks_now e stream)
  receive-exit p (ok event ∷ stream) code n h =
      let (c, b) = receive-exit (record p { handled = p.handled ++ event ∷ [] }) stream code n h in
      (c, breaks_later event stream b)

  receive-Breaks :
      (p : Progress) (stream : List (Result ConnectionReceived))
      → Breaks stream
      → (receive p stream).exit ≡ some exit_event_stream_dropped
  unfolding receive
  receive-Breaks p _ (breaks_now e stream) = refl
  receive-Breaks p _ (breaks_later event stream b) =
      receive-Breaks (record p { handled = p.handled ++ event ∷ [] }) stream b

  open_tunnel-exit :
      (answer : Result TunnelOpened) (code : ℤ)
      → session.dial j.config.remote.events ≡ none
      → session.send (request j) ≡ none
      → session.opened ≡ answer
      → (open_tunnel j port debug session answer).exit ≡ some code
      → ExitReason code
  unfolding open_tunnel
  open_tunnel-exit (err e) code d s o h = unanswered e (some-injective _ _ (sym h)) d s o
  open_tunnel-exit (ok t) code d s o h = elim (Bool-cases (t.error_message == "")) [
    | inl empty ↦
        let (c, b) = receive-exit _ session.stream code refl (rw empty at h) in
        dropped t c d s o ((eq_iff _ _).0 empty) b
    | inr message ↦
        rejected t (some-injective _ _ (sym (rw message at h))) d s o
          (λ e. cc ((eq_iff t.error_message "").1 e))
  ]

  after_send-exit :
      (answer : Option String) (code : ℤ)
      → session.dial j.config.remote.events ≡ none
      → session.send (request j) ≡ answer
      → (after_send j port debug session answer).exit ≡ some code
      → ExitReason code
  unfolding after_send
  after_send-exit (some e) code d s h = unsent e (some-injective _ _ (sym h)) d s
  after_send-exit none code d s h = open_tunnel-exit session.opened code d s refl h

  after_dial-exit :
      (answer : Option String) (code : ℤ)
      → session.dial j.config.remote.events ≡ answer
      → (after_dial j port debug session answer).exit ≡ some code
      → ExitReason code
  unfolding after_dial
  after_dial-exit (some e) code d h = undialed e (some-injective _ _ (sym h)) d
  after_dial-exit none code d h = after_send-exit (session.send (request j)) code d refl h

  refused_message : (m : String) → m ≢ "" → (m == "") ≡ false
  refused_message m h = ground (arith, eq_iff m "")

  pub ExitReason-start :
      (code : ℤ) → ExitReason code → (start j port debug session).exit ≡ some code
  unfolding start after_dial after_send open_tunnel
  ExitReason-start code (undialed e c d) = rw (d, c) refl
  ExitReason-start code (unsent e c d s) = rw (d, s, c) refl
  ExitReason-start code (unanswered e c d s o) = rw (d, s, o, c) refl
  ExitReason-start code (rejected t c d s o m) =
      rw (d, s, o, refused_message t.error_message m, c) refl
  ExitReason-start code (dropped t c d s o m b) =
      rw (d, s, o, (eq_iff _ _).1 m, c) (receive-Breaks _ session.stream b)

  -- The client ends with a code exactly for its reason: with 21 where the dial fails, or the request
  -- behind it, or the answer behind both; with the code for the server's message where the answer has
  -- one; and with 22 where the tunnel was opened and then, after connections alone, an error is read
  -- from the stream.
  pub start-ExitReason :
      (code : ℤ) → ((start j port debug session).exit ≡ some code) ↔ ExitReason code
  unfolding start
  start-ExitReason code = (
    λ h. after_dial-exit (session.dial j.config.remote.events) code refl h,
    ExitReason-start code,
  )

  -- The event server refused the tunnel, with an error that the agent knows.
  pub record RefusedByServer : Type 0 where
    pub answer : TunnelOpened
    pub answered : session.opened ≡ ok answer
    pub message : answer.error_message ≢ ""
    pub known : ¬ IsUnknown answer.error_message

  -- No failure of the network condemns a tunnel: where the controller finds the client's exit terminal,
  -- the event server has answered the request with an error message that has one of the known prefixes.
  pub terminal-RefusedByServer :
      (code : ℤ) (b : CollisionBehavior)
      → (start j port debug session).exit ≡ some code
      → (classify_exit code b).terminal ≡ true
      → RefusedByServer
  terminal-RefusedByServer code b h terminal = judged ((start-ExitReason code).0 h)
    where
      judged : ExitReason code → RefusedByServer
      judged (undialed e c d) = absurd (transport_retries code b (inl c) terminal)
      judged (unsent e c d s) = absurd (transport_retries code b (inl c) terminal)
      judged (unanswered e c d s o) = absurd (transport_retries code b (inl c) terminal)
      judged (dropped t c d s o m b') = absurd (transport_retries code b (inr c) terminal)
      judged (rejected t c d s o m) = record {
        answer = t;
        answered = o;
        message = m;
        known = λ unknown.
            unknown_retries t.error_message b unknown
              (ap (λ x. (classify_exit x b).terminal) (sym c) ∙ terminal);
      }
