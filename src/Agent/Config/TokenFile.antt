-- ===== src/Agent/Config/TokenFile.antt =====
-- cli/config.go, `Load`: a token in a file of its own.
use jprq_bek.Base.{◌≡◌, ◌≢◌, ℕ, ◌==◌, eq_iff, false, List, some, none, ok, trim_space, arith}
use jprq_bek.Agent.Host.{Host, Disk, Remote, response}
use jprq_bek.Agent.Config.{remote_config, load, load_token, load_token_file, remote_answer}

-- Where the environment names a token file that can be read, `Load` takes the token from it, without
-- the white space at its ends.
pub load-token_file :
    (host : Host) (disk : Disk) (content : List ℕ) (remote : Remote)
    → host.getenv "JPRQ_TOKEN_FILE" ≢ ""
    → host.read_error (host.getenv "JPRQ_TOKEN_FILE") ≡ none
    → disk (host.getenv "JPRQ_TOKEN_FILE") ≡ some content
    → host.get_remote remote_config ≡ response 200 (ok remote)
    → load host disk ≡ ok (record { remote = remote; auth_token = trim_space content })
unfolding load load_token load_token_file remote_answer
load-token_file host disk content remote set readable held served =
    rw (is_set, readable, held, served)
  where
    is_set : (host.getenv "JPRQ_TOKEN_FILE" == "") ≡ false
    is_set = ground (arith, eq_iff (host.getenv "JPRQ_TOKEN_FILE") "")
