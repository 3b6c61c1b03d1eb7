-- ===== src/Agent/Host.antt =====
-- The machine that the agent runs on: its environment, its files and the network's answers.
use jprq_bek.Base.{ℕ, String, ◌==◌, Bool, List, Option, none, some, Result, ok, err, if◌then◌else◌}

-- `Config.Remote` of cli/config.go, as the remote configuration gives it.
pub record Remote : Type 0 where
  pub domain : String
  pub events : String

-- The answer to `http.Get` of the remote configuration: its status code, and what the body decodes to.
pub data RemoteAnswer : Type 0 where
  no_response : String → RemoteAnswer
  response : ℕ → Result Remote → RemoteAnswer

-- The error of `os.MkdirAll`, and whether `os.IsNotExist` accepts it.
pub record MkdirError : Type 0 where
  pub not_exist : Bool
  pub text : String

-- The files, by their paths.
abbrev pub Disk : Type 0
Disk = String → Option (List ℕ)

abbrev pub put : Disk → String → List ℕ → Disk
put disk path content p = if p == path then some content else disk p

-- What the agent calls and does not implement.
pub record Host : Type 0 where
  -- `os.Getenv`
  pub getenv : String → String
  -- `os.UserConfigDir` and `filepath.Join`
  pub user_config_dir : Result String
  pub join : List String → String
  -- the error of `os.ReadFile`, where it is not that there is no such file
  pub read_error : String → Option String
  -- `json.Marshal` of `Config.Local`, and `json.Unmarshal` into it
  pub marshal_local : List ℕ → Result (List ℕ)
  pub unmarshal_local : List ℕ → Result (List ℕ)
  -- `os.MkdirAll`, `os.OpenFile`, and `Write`: what gets into the file, and the error
  pub mkdir_all : String → Option MkdirError
  pub open_file : String → Option String
  pub write_file : List ℕ → List ℕ × Option String
  -- `http.Get`
  pub get_remote : String → RemoteAnswer
  -- `filepath.Abs`, and the port of `net.Listen`
  pub abs : String → Result String
  pub listen : Result ℕ

module _ (host : Host) (disk : Disk) where
  found_file : Option (List ℕ) → Result (List ℕ)
  found_file none = err "no such file or directory"
  found_file (some content) = ok content

  read_answer : String → Option String → Result (List ℕ)
  unfolding found_file
  read_answer path (some e) = err e
  read_answer path none = found_file (disk path)

  -- `os.ReadFile`
  unfoldable pub read_file : String → Result (List ℕ)
  unfolding read_answer
  read_file path = read_answer path (host.read_error path)
