-- ===== src/Agent/Config.antt =====
-- cli/config.go: the agent's configuration. A token is the bytes of a Go string.
pub mod RoundTrip
pub mod TokenFile
use jprq_bek.Base.{
  ℕ, String, ◌<>◌, ◌==◌, ◌=ℕ=◌, Bool, List, [], ◌∷◌, Option, none, some, Result, ok, err,
  if◌then◌else◌, trim_space,
}
use jprq_bek.Agent.Host.{
  Host, Disk, put, read_file, Remote, RemoteAnswer, no_response, response, MkdirError,
}

abbrev pub local_config : String
local_config = ".jprq-config"

abbrev pub remote_config : String
remote_config = "https://jprq.io/config.json"

pub record Config : Type 0 where
  pub remote : Remote
  pub auth_token : List ℕ

infixl 5 ◌>>=◌
abbrev ◌>>=◌ {ℓ κ} : {A : Type ℓ} {B : Type κ} → Result A → (A → Result B) → Result B
ok a >>= f = f a
err e >>= f = err e

-- `if err != nil { return fmt.Errorf(…) }`
abbrev pub or_fail {ℓ} : {A : Type ℓ} → (String → String) → Result A → Result A
or_fail message (ok a) = ok a
or_fail message (err e) = err (message e)

module _ (host : Host) where
  open host use {getenv, user_config_dir, join, unmarshal_local, marshal_local, get_remote}

  -- The token from the user's configuration file.
  load_local : Disk → Result (List ℕ)
  unfolding read_file
  load_local disk = do
    dir ← or_fail (λ e. "error getting user config directory: " <> e) user_config_dir
    content ←
        or_fail (λ e. "error: no auth token, obtain at https://jprq.io/auth")
          (read_file host disk (join (dir ∷ "jprq" ∷ local_config ∷ [])))
    or_fail (λ e. "error unmarshaling config file contents: " <> e) (unmarshal_local content)

  -- The token from a file that holds nothing else.
  load_token_file : Disk → String → Result (List ℕ)
  unfolding read_file trim_space
  load_token_file disk token_file = do
    content ←
        or_fail (λ e. "error reading " <> token_file <> ": " <> e) (read_file host disk token_file)
    ok (trim_space content)

  load_token : Disk → Result (List ℕ)
  unfolding load_local load_token_file
  load_token disk =
      if getenv "JPRQ_TOKEN_FILE" == ""
      then load_local disk
      else load_token_file disk (getenv "JPRQ_TOKEN_FILE")

  -- A status other than 200 comes with a nil error, which `%s` prints as below.
  remote_answer : RemoteAnswer → Result Remote
  remote_answer (no_response e) = err ("error fetching " <> remote_config <> ": " <> e)
  remote_answer (response status body) =
      if status =ℕ= 200
      then or_fail (λ e. "error decoding config file: " <> e) body
      else err ("error fetching " <> remote_config <> ": %!s(<nil>)")

  -- `Config.Load`
  unfoldable pub load : Disk → Result Config
  unfolding load_token remote_answer
  load disk = do
    token ← load_token disk
    remote ← remote_answer (get_remote remote_config)
    ok (record { remote = remote; auth_token = token })

  write_answer : Disk → String → List ℕ × Option String → Option String × Disk
  write_answer disk path (written, some e) =
      (some ("error writitng to config file: " <> e), put disk path written)
  write_answer disk path (written, none) = (none, put disk path written)

  store_opened : Disk → String → List ℕ → Option String → Option String × Disk
  unfolding write_answer
  store_opened disk path content (some e) = (some ("error creating config file: " <> e), disk)
  store_opened disk path content none = write_answer disk path (host.write_file content)

  -- The file is created or truncated, and written.
  store_token : Disk → String → List ℕ → Option String × Disk
  unfolding store_opened
  store_token disk path content = store_opened disk path content (host.open_file path)

  -- Of the errors of `MkdirAll`, only one that says that something does not exist ends the write.
  mkdir_error : Option MkdirError → Option String
  mkdir_error none = none
  mkdir_error (some e) =
      if e.not_exist then some ("error creating config directory: " <> e.text) else none

  store_unless : Disk → List ℕ → String → Option String → Option String × Disk
  unfolding store_token
  store_unless disk content dir (some e) = (some e, disk)
  store_unless disk content dir none =
      store_token disk (join (join (dir ∷ "jprq" ∷ []) ∷ local_config ∷ [])) content

  write_in : Disk → List ℕ → String → Option String × Disk
  unfolding mkdir_error store_unless
  write_in disk content dir =
      store_unless disk content dir (mkdir_error (host.mkdir_all (join (dir ∷ "jprq" ∷ []))))

  write_content : Disk → Result (List ℕ) → Result String → Option String × Disk
  unfolding write_in
  write_content disk (err e) dir = (some ("error marshaling config: " <> e), disk)
  write_content disk (ok content) (err e) =
      (some ("error getting user config directory: " <> e), disk)
  write_content disk (ok content) (ok dir) = write_in disk content dir

  -- `Config.Write`: its error, and the files.
  unfoldable pub write : Disk → List ℕ → Option String × Disk
  unfolding write_content
  write disk auth_token = write_content disk (marshal_local auth_token) user_config_dir
