-- ===== src/Agent/Tests/Files.antt =====
-- cli/config.go and cli/main.go: the configuration and the command line of a sample host.
use jprq_bek.Base.{◌≡◌, refl, sym, ℕ, String, ◌<>◌, List, [], ◌∷◌, none, ok, true, bytes_of}
use jprq_bek.Agent.Host.{Host, Disk, Remote, put, response}
use jprq_bek.Agent.Config.{load, write}
use jprq_bek.Agent.Config.RoundTrip.{KeepsPromises, load-write}
use jprq_bek.Agent.Command.{Flags, running, parse_flags}
use jprq_bek.Agent.Command.Arguments.{flag_line, parse_flags-flag_line}

abbrev joined_behind : String → List String → String
joined_behind path [] = path
joined_behind path (part ∷ parts) = joined_behind (path <> "/" <> part) parts

abbrev joined : List String → String
joined [] = ""
joined (part ∷ parts) = joined_behind part parts

abbrev pub sample_remote : Remote
sample_remote = record { domain = "jprq.live"; events = "event.jprq.live:4321" }

abbrev pub sample_host : Host
sample_host = record {
  getenv = λ name. "";
  user_config_dir = ok "/home/user/.config";
  join = joined;
  read_error = λ path. none;
  marshal_local = λ token. ok token;
  unmarshal_local = λ content. ok content;
  mkdir_all = λ path. none;
  open_file = λ path. none;
  write_file = λ content. (content, none);
  get_remote = λ url. response 200 (ok sample_remote);
  abs = λ path. ok path;
  listen = ok 40000;
}

abbrev pub empty_disk : Disk
empty_disk path = none

abbrev sample_token : List ℕ
sample_token = bytes_of "tk"

sample_host-KeepsPromises : KeepsPromises sample_host
sample_host-KeepsPromises = record {
  decodes = λ text content h. sym h;
  joins = λ a b c. refl;
  writes = λ content h. refl;
}

abbrev token_disk : Disk
token_disk = put empty_disk "/home/user/.config/jprq/.jprq-config" sample_token

written : write sample_host empty_disk sample_token ≡ (none, token_disk)
unfolding write
written = refl

load-write_example :
    load sample_host token_disk ≡ ok (record { remote = sample_remote; auth_token = sample_token })
load-write_example =
    load-write sample_host empty_disk token_disk "tk" sample_remote sample_host-KeepsPromises
      (λ path. refl) refl refl written

parse_flags-flag_line_example :
    let flags : Flags = record { debug = true; cname = ""; subdomain = "shop" } in
    parse_flags (flag_line flags) ≡ running flags
parse_flags-flag_line_example = parse_flags-flag_line true "shop" "" refl refl
