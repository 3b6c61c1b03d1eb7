-- ===== src/Agent/Command.antt =====
-- cli/main.go: the command line and the environment. What is printed is left out but for the messages
-- with which the process ends.
pub mod Arguments
pub mod Environment
pub mod InPod
use jprq_bek.Base.{
  ℕ, zero, suc, String, ◌<>◌, ◌==◌, ◌||◌, Bool, true, false, List, [], ◌∷◌, Option, none, some,
  Result, ok, err, if◌then◌else◌, ltb, bytes_of, ℤ, pos, negsuc,
}
use jprq_bek.Agent.ExitCodes.{exit_ok, exit_unexpected, exit_config_failure}
use jprq_bek.Agent.Host.{Host, Disk}
use jprq_bek.Agent.Config.{Config, load, write}
use jprq_bek.Agent.Number.{atoi}
use jprq_bek.Agent.Client.{Client}

pub record Flags : Type 0 where
  pub debug : Bool
  pub cname : String
  pub subdomain : String

abbrev pub no_flags : Flags
no_flags = record { debug = false; cname = ""; subdomain = "" }

pub data Kind : Type 0 where
  debug_flag subdomain_flag cname_flag plain : Kind

-- The cases of the `switch` of `parseFlags`.
abbrev pub kind : String → Kind
kind arg =
    if arg == "-d" || arg == "-debug" || arg == "--debug"
    then debug_flag
    else if arg == "-s" || arg == "-subdomain" || arg == "--subdomain"
    then subdomain_flag
    else if arg == "-c" || arg == "-cname" || arg == "--cname"
    then cname_flag
    else plain

-- The process as far as it has run: it has ended with a code and a message, or goes on with a value.
pub data Process (A : Type 0) : Type 0 where
  ended : ℤ → String → Process A
  running : A → Process A

infixl 5 ◌>>=◌
abbrev pub ◌>>=◌ : {A B : Type 0} → Process A → (A → Process B) → Process B
ended code message >>= f = ended code message
running a >>= f = f a

-- `log.Fatalf`
abbrev pub fatal : {A : Type 0} → String → Process A
fatal message = ended exit_unexpected message

-- `printHelp` and `printVersion`
abbrev pub printed : {A : Type 0} → Process A
printed = ended exit_ok ""

-- What one round of the loop of `parseFlags` does to the flags: it looks at the argument and at the
-- arguments behind it.
unfoldable pub read_flag : Kind → List String → Flags → Process Flags
read_flag plain rest flags = running flags
read_flag debug_flag rest flags = running (record flags { debug = true })
read_flag subdomain_flag [] flags = fatal "missing value for subdomain flag, jprq --help"
read_flag subdomain_flag (value ∷ rest) flags = running (record flags { subdomain = value })
read_flag cname_flag [] flags = fatal "missing value for cname flag, jprq --help"
read_flag cname_flag (value ∷ rest) flags = running (record flags { cname = value })

unfoldable pub parse_from : List String → Flags → Process Flags
unfolding read_flag
parse_from [] flags = running flags
parse_from (arg ∷ rest) flags = do flags' ← read_flag (kind arg) rest flags; parse_from rest flags'

-- `parseFlags`
unfoldable pub parse_flags : List String → Process Flags
unfolding parse_from
parse_flags args = parse_from args no_flags

-- `args[i]`, or the variable.
unfoldable pub arg_or_env : (String → String) → List String → ℕ → String → String
arg_or_env getenv [] i env = getenv env
arg_or_env getenv (arg ∷ args) zero env = arg
arg_or_env getenv (arg ∷ args) (suc i) env = arg_or_env getenv args i env

-- `os.Args[3:]`
abbrev pub flag_args : List String → List String
flag_args (program ∷ command ∷ arg ∷ flags) = flags
flag_args _ = []

-- `os.Args[1]`, where it asks for help or for the version.
abbrev pub asks_print : List String → Bool
asks_print (program ∷ command ∷ args) =
    command == "help" || command == "--help" || command == "version" || command == "--version"
asks_print _ = false

abbrev pub is_positive : ℤ → Bool
is_positive (pos n) = ltb 0 n
is_positive (negsuc n) = false

-- What `main` starts: the client, the port and the debugger.
pub record Launch : Type 0 where
  pub client : Client
  pub port : ℤ
  pub debug : Bool

-- A protocol and a port.
abbrev Target : Type 0
Target = String × ℤ

module _ (host : Host) where
  open host use {getenv}

  auth_answer : Option String × Disk → Process Target × Disk
  auth_answer (some e, disk) = (fatal ("error writing config: " <> e), disk)
  auth_answer (none, disk) = (printed, disk)

  serve_on : Result ℕ → Process Target
  serve_on (err e) = fatal ("failed to start server: " <> e)
  serve_on (ok port) = running ("http", pos port)

  -- `handleServe`. Beside an error, `filepath.Abs` returns an empty path, which the message names.
  serve_answer : Result String → Process Target
  unfolding serve_on
  serve_answer (err e) = fatal "no such dir "
  serve_answer (ok dir) = serve_on host.listen

  -- The `switch` over the command.
  run_command : String → String → Disk → Process Target × Disk
  unfolding auth_answer serve_answer bytes_of atoi
  run_command command arg disk =
      if command == "auth"
      then auth_answer (write host disk (bytes_of arg))
      else if command == "serve"
      then (serve_answer (host.abs arg), disk)
      else if command == "tcp" || command == "http"
      then (running (command, atoi arg), disk)
      else (fatal ("unknown command: " <> command <> ", jprq --help"), disk)

  pub launch : Flags → Target → Result Config → Process Launch
  launch flags target (err e) = ended exit_config_failure e
  launch flags (protocol, port) (ok conf) = running (record {
    client = record {
      config = conf;
      protocol = protocol;
      subdomain = flags.subdomain;
      cname = flags.cname;
      backend_host = getenv "JPRQ_BACKEND_HOST";
    };
    port = port;
    debug = flags.debug;
  })

  check_port : Flags → Target → Disk → Process Launch
  unfolding launch load
  check_port flags target disk =
      if is_positive target.1
      then launch flags target (load host disk)
      else fatal "port number must be a positive integer"

  with_target : Flags → Process Target × Disk → Process Launch × Disk
  unfolding check_port
  with_target flags (ended code message, disk) = (ended code message, disk)
  with_target flags (running target, disk) = (check_port flags target disk, disk)

  -- The subdomain of the flags, or the variable.
  abbrev with_env : Flags → Flags
  with_env flags =
      if flags.subdomain == "" then record flags { subdomain = getenv "JPRQ_SUBDOMAIN" } else flags

  with_flags : String → String → Disk → Process Flags → Process Launch × Disk
  unfolding with_target run_command
  with_flags command arg disk (ended code message) = (ended code message, disk)
  with_flags command arg disk (running flags) =
      with_target (with_env flags) (run_command command arg disk)

  dispatch : List String → String → String → Disk → Process Launch × Disk
  unfolding with_flags parse_flags
  dispatch args command arg disk =
      if command == "" || arg == ""
      then (printed, disk)
      else with_flags command arg disk (parse_flags (flag_args args))

  -- `main`, up to the start of the client, for `os.Args` and the files.
  unfoldable pub main : List String → Disk → Process Launch × Disk
  unfolding dispatch arg_or_env
  main args disk =
      if asks_print args
      then (printed, disk)
      else dispatch args (arg_or_env getenv args 1 "JPRQ_PROTOCOL")
          (arg_or_env getenv args 2 "JPRQ_BACKEND_PORT") disk
