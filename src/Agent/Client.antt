-- ===== src/Agent/Client.antt =====
-- cli/jprqc.go: the tunnel client. The events and the copying of connections are those of cli/jprq.
pub mod Ends
pub mod Health
pub mod Connections
use jprq_bek.Base.{
  ℕ, String, ◌<>◌, ◌==◌, Bool, true, false, ◌&&◌, List, [], ◌∷◌, ◌++◌, Option, none, some, is_some,
  Result, ok, err, if◌then◌else◌, ℤ, itoa, itoa_int,
}
use jprq_bek.Agent.ExitCodes.{exit_event_server_unreachable, exit_event_stream_dropped}
use jprq_bek.Agent.ServerError.{exit_code_for_server_error}
use jprq_bek.Agent.Config.{Config}

abbrev pub version : String
version = "2.4"

-- The events of cli/jprq/events.go.
pub record TunnelRequested : Type 0 where
  pub protocol : String
  pub subdomain : String
  pub canon_name : String
  pub auth_token : List ℕ
  pub cli_version : String

pub record TunnelOpened : Type 0 where
  pub hostname : String
  pub public_server : ℕ
  pub private_server : ℕ
  pub error_message : String

pub record ConnectionReceived : Type 0 where
  pub client_port : ℕ

-- `jprqClient`, as `main` builds it.
pub record Client : Type 0 where
  pub config : Config
  pub protocol : String
  pub subdomain : String
  pub cname : String
  pub backend_host : String

-- What the event server does: the errors of the dial and of the request, the answer, and then what is
-- read from the stream so far.
pub record Session : Type 0 where
  pub dial : String → Option String
  pub send : TunnelRequested → Option String
  pub opened : Result TunnelOpened
  pub stream : List (Result ConnectionReceived)

-- The addresses that `Start` computes.
pub record Servers : Type 0 where
  pub local_server : String
  pub remote_server : String
  pub public_server : String

-- The state of `Start`: its exit, if it has ended; whether `healthy` is set; the request that it
-- has tried to send; and, once the tunnel is open, the
-- addresses, whether there is a debugger, and the connections that were handed to `handleEvent`.
pub record Progress : Type 0 where
  pub exit : Option ℤ
  pub healthy : Bool
  pub requested : Option TunnelRequested
  pub servers : Option Servers
  pub debugging : Bool
  pub handled : List ConnectionReceived

abbrev stopped : ℤ → Option TunnelRequested → Progress
stopped code requested = record {
  exit = some code;
  healthy = false;
  requested = requested;
  servers = none;
  debugging = false;
  handled = [];
}

-- The request.
unfoldable pub request : Client → TunnelRequested
request j = record {
  protocol = j.protocol;
  subdomain = j.subdomain;
  canon_name = j.cname;
  auth_token = j.config.auth_token;
  cli_version = version;
}

abbrev host_of : Client → String
host_of j = if j.backend_host == "" then "localhost" else j.backend_host

unfoldable pub servers_of : Client → ℤ → TunnelOpened → Servers
unfolding itoa_int
servers_of j port t = record {
  local_server = host_of j <> ":" <> itoa_int port;
  remote_server = "jprq." <> j.config.remote.domain <> ":" <> itoa t.private_server;
  public_server =
      if j.protocol == "http"
      then "https://" <> t.hostname
      else t.hostname <> ":" <> itoa t.public_server;
}

-- The loop of `Start`: where the list ends, it waits for the next event.
unfoldable pub receive : Progress → List (Result ConnectionReceived) → Progress
receive p [] = p
receive p (err e ∷ stream) = record p { exit = some exit_event_stream_dropped }
receive p (ok event ∷ stream) = receive (record p { handled = p.handled ++ event ∷ [] }) stream

-- The answer of the server.
unfoldable pub open_tunnel : Client → ℤ → Bool → Session → Result TunnelOpened → Progress
unfolding receive servers_of request
open_tunnel j port debug session (err e) = stopped exit_event_server_unreachable (some (request j))
open_tunnel j port debug session (ok t) =
    if t.error_message == ""
    then receive
        (record {
          exit = none;
          healthy = true;
          requested = some (request j);
          servers = some (servers_of j port t);
          debugging = j.protocol == "http" && debug;
          handled = [];
        })
        session.stream
    else stopped (exit_code_for_server_error t.error_message) (some (request j))

unfoldable pub after_send : Client → ℤ → Bool → Session → Option String → Progress
unfolding open_tunnel request
after_send j port debug session (some e) = stopped exit_event_server_unreachable (some (request j))
after_send j port debug session none = open_tunnel j port debug session session.opened

unfoldable pub after_dial : Client → ℤ → Bool → Session → Option String → Progress
unfolding after_send request
after_dial j port debug session (some e) = stopped exit_event_server_unreachable none
after_dial j port debug session none = after_send j port debug session (session.send (request j))

-- `Start`
unfoldable pub start : Client → ℤ → Bool → Session → Progress
unfolding after_dial
start j port debug session = after_dial j port debug session (session.dial j.config.remote.events)

-- `serveHealth`: the address, and the status of `/healthz`; there is no answer once the process has ended.
unfoldable pub health_address : (String → String) → String
health_address getenv =
    if getenv "JPRQ_HEALTH_ADDR" == "" then ":9000" else getenv "JPRQ_HEALTH_ADDR"

unfoldable pub healthz : Progress → Option ℕ
healthz p = if is_some p.exit then none else if p.healthy then some 200 else some 503

-- What `handleEvent` does with its connections. They are copied to the debugger too, if it runs.
pub data Step : Type 0 where
  dialed : String → Step
  wrote : List ℕ → Step
  bound_both_ways : Bool → Step
  closed : String → Step

-- The calls of `handleEvent`, whose deferred closes come last, the remote one first; `put_uint16` is
-- `binary.LittleEndian.PutUint16`, into a buffer of two bytes.
unfoldable pub handle_event :
    (ℕ → List ℕ) → Bool → Servers → ConnectionReceived → Option String → Option String → List Step
handle_event put_uint16 debugging servers event (some e) remote_error =
    dialed servers.local_server ∷ []
handle_event put_uint16 debugging servers event none (some e) =
    dialed servers.local_server ∷ dialed servers.remote_server ∷ closed servers.local_server ∷ []
handle_event put_uint16 debugging servers event none none =
    dialed servers.local_server
    ∷ dialed servers.remote_server
    ∷ wrote (put_uint16 event.client_port)
    ∷ bound_both_ways debugging
    ∷ closed servers.remote_server
    ∷ closed servers.local_server
    ∷ []
