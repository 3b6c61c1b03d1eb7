-- ===== src/Agent/Tests/Sessions.antt =====
-- cli/jprqc.go: the tunnel client in sample sessions.
use jprq_bek.Base.{false, ◌≡◌, ◌↔◌, refl, [], ◌∷◌, none, some, ok, err, true, pos}
use jprq_bek.Api.{collision_retry}
use jprq_bek.Agent.ServerError.{exit_code_for_server_error}
use jprq_bek.Agent.Client.{
  Client, Session, start, after_dial, after_send, open_tunnel, receive, healthz,
}
use jprq_bek.Agent.Client.Ends.{
  Breaks, ExitReason, start-ExitReason, RefusedByServer, terminal-RefusedByServer,
}
use jprq_bek.Agent.Client.Health.{Opened, healthz_iff}
use jprq_bek.Agent.Client.Connections.{received, start-received}
use jprq_bek.Controller.Classify.{classify_exit}
use jprq_bek.Agent.Tests.Files.{sample_remote}

abbrev sample_client : Client
sample_client = record {
  config = record { remote = sample_remote; auth_token = b't' ∷ b'k' ∷ [] };
  protocol = "http";
  subdomain = "shop";
  cname = "";
  backend_host = "front.web.svc";
}

-- The stream breaks after one connection.
abbrev dropped_session : Session
dropped_session = record {
  dial = λ address. none;
  send = λ request. none;
  opened = ok (record {
    hostname = "shop.jprq.live";
    public_server = 0;
    private_server = 5000;
    error_message = "";
  });
  stream = ok (record { client_port = 50000 }) ∷ err "EOF" ∷ [];
}

abbrev rejected_session : Session
rejected_session = record dropped_session {
  opened = ok (record {
    hostname = "";
    public_server = 0;
    private_server = 0;
    error_message = "authentication failed";
  });
}

dropped_ends : (start sample_client (pos 80) false dropped_session).exit ≡ some (pos 22)
unfolding start after_dial after_send open_tunnel receive
dropped_ends = refl

start-ExitReason_example :
    ((start sample_client (pos 80) false dropped_session).exit ≡ some (pos 22))
    ↔ ExitReason sample_client (pos 80) false dropped_session (pos 22)
start-ExitReason_example = start-ExitReason sample_client (pos 80) false dropped_session (pos 22)

-- The loop is running.
abbrev running_session : Session
running_session = record dropped_session { stream = ok (record { client_port = 50000 }) ∷ [] }

healthz_iff_example :
    (healthz (start sample_client (pos 80) false running_session) ≡ some 200)
    ↔ (Opened sample_client (pos 80) false running_session × ¬ Breaks running_session.stream)
healthz_iff_example = healthz_iff sample_client (pos 80) false running_session

rejected_ends : (start sample_client (pos 80) false rejected_session).exit ≡ some (pos 13)
unfolding start after_dial after_send open_tunnel exit_code_for_server_error
rejected_ends = refl

unauthorized_terminal : (classify_exit (pos 13) collision_retry).terminal ≡ true
unfolding classify_exit
unauthorized_terminal = refl

terminal-RefusedByServer_example : RefusedByServer sample_client (pos 80) false rejected_session
terminal-RefusedByServer_example =
    terminal-RefusedByServer sample_client (pos 80) false rejected_session (pos 13) collision_retry
      rejected_ends unauthorized_terminal

dropped_opened : Opened sample_client (pos 80) false dropped_session
dropped_opened = record {
  answer = record {
    hostname = "shop.jprq.live";
    public_server = 0;
    private_server = 5000;
    error_message = "";
  };
  dialed = refl;
  sent = refl;
  answered = refl;
  accepted = refl;
}

start-received_example :
    (start sample_client (pos 80) false dropped_session).handled ≡ received dropped_session.stream
start-received_example = start-received sample_client (pos 80) false dropped_session dropped_opened
