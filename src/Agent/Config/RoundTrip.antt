-- ===== src/Agent/Config/RoundTrip.antt =====
-- cli/config.go: `Write`, and then `Load`.
use jprq_bek.Base.{
  ◌≡◌, refl, sym, ap, ◌∙◌, ℕ, String, eq_refl, bytes_of, List, [], ◌∷◌, Option, none, some, Result,
  ok, err, arith,
}
use jprq_bek.Agent.Host.{Host, Disk, put, Remote, response}
use jprq_bek.Agent.Config.{
  local_config, remote_config, load, load_token, load_local, remote_answer, write, write_content,
  write_in, write_answer, store_opened, store_unless, store_token,
}

module _ (host : Host) where
  -- The libraries keep their promises: a token that is valid UTF-8 survives its encoding, a path may be
  -- joined in steps, and a write without an error has written everything.
  pub record KeepsPromises : Type 0 where
    pub decodes :
        (text : String) (content : List ℕ)
        → host.marshal_local (bytes_of text) ≡ ok content
        → host.unmarshal_local content ≡ ok (bytes_of text)
    pub joins :
        (a b c : String) → host.join (host.join (a ∷ b ∷ []) ∷ c ∷ []) ≡ host.join (a ∷ b ∷ c ∷ [])
    pub writes :
        (content : List ℕ)
        → (host.write_file content).1 ≡ none
        → (host.write_file content).0 ≡ content

  -- The file that a write without an error leaves.
  record Stored (token : List ℕ) (disk' : Disk) : Type 0 where
    dir : String
    content : List ℕ
    dir_is : host.user_config_dir ≡ ok dir
    encoded : host.marshal_local token ≡ ok content
    held :
        disk' (host.join (host.join (dir ∷ "jprq" ∷ []) ∷ local_config ∷ []))
        ≡ some (host.write_file content).0
    complete : (host.write_file content).1 ≡ none

  put-same :
      (disk : Disk) (path : String) (content : List ℕ) → put disk path content path ≡ some content
  put-same disk path content = rw (eq_refl path)

  write_answer-held :
      (disk disk' : Disk) (path : String) (answer : List ℕ × Option String)
      → write_answer host disk path answer ≡ (none, disk')
      → (disk' path ≡ some answer.0) × (answer.1 ≡ none)
  unfolding write_answer
  write_answer-held disk disk' path (written, some e) h = absurd (ground arith)
  write_answer-held disk disk' path (written, none) h =
      (ap (λ r. r.1 path) (sym h) ∙ put-same disk path written, refl)

  store_opened-held :
      (disk disk' : Disk) (path : String) (content : List ℕ) (opened : Option String)
      → store_opened host disk path content opened ≡ (none, disk')
      → (disk' path ≡ some (host.write_file content).0) × ((host.write_file content).1 ≡ none)
  unfolding store_opened
  store_opened-held disk disk' path content (some e) h = absurd (ground arith)
  store_opened-held disk disk' path content none h =
      write_answer-held disk disk' path (host.write_file content) h

  store_unless-held :
      (disk disk' : Disk) (dir : String) (content : List ℕ) (e : Option String)
      → store_unless host disk content dir e ≡ (none, disk')
      → (disk' (host.join (host.join (dir ∷ "jprq" ∷ []) ∷ local_config ∷ []))
          ≡ some (host.write_file content).0)
        × ((host.write_file content).1 ≡ none)
  unfolding store_unless store_token
  store_unless-held disk disk' dir content (some e) h = absurd (ground arith)
  store_unless-held disk disk' dir content none h = store_opened-held disk disk' _ content _ h

  write_content-Stored :
      (disk disk' : Disk) (token : List ℕ) (content : Result (List ℕ)) (dir : Result String)
      → host.marshal_local token ≡ content
      → host.user_config_dir ≡ dir
      → write_content host disk content dir ≡ (none, disk')
      → Stored token disk'
  unfolding write_content write_in
  write_content-Stored disk disk' token (err e) dir m d h = absurd (ground arith)
  write_content-Stored disk disk' token (ok content) (err e) m d h = absurd (ground arith)
  write_content-Stored disk disk' token (ok content) (ok dir) m d h =
      let (held, complete) = store_unless-held disk disk' dir content _ h in
      record {
        dir = dir;
        content = content;
        dir_is = d;
        encoded = m;
        held = held;
        complete = complete;
      }

  load_local-Stored :
      (token : String) (disk : Disk)
      → KeepsPromises
      → Stored (bytes_of token) disk
      → ((path : String) → host.read_error path ≡ none)
      → load_local host disk ≡ ok (bytes_of token)
  unfolding load_local
  load_local-Stored token disk k s readable = rw (
    s.dir_is,
    readable (host.join (s.dir ∷ "jprq" ∷ local_config ∷ [])),
    held,
    k.decodes token s.content s.encoded,
  )
    where
      held : disk (host.join (s.dir ∷ "jprq" ∷ local_config ∷ [])) ≡ some s.content
      held =
          ap disk (sym (k.joins s.dir "jprq" local_config))
          ∙ s.held
          ∙ ap some (k.writes s.content s.complete)

  -- `jprq auth` and then `jprq http`: once `Write` has ended without an error for a token that is valid
  -- UTF-8, and where the libraries keep their promises, the file can be read, no token file is named,
  -- and the remote configuration is served, `Load` gives the very token that was written, with that
  -- remote configuration.
  pub load-write :
      (disk disk' : Disk) (token : String) (remote : Remote)
      → KeepsPromises
      → ((path : String) → host.read_error path ≡ none)
      → host.getenv "JPRQ_TOKEN_FILE" ≡ ""
      → host.get_remote remote_config ≡ response 200 (ok remote)
      → write host disk (bytes_of token) ≡ (none, disk')
      → load host disk' ≡ ok (record { remote = remote; auth_token = bytes_of token })
  unfolding load load_token write remote_answer
  load-write disk disk' token remote k readable unset served written =
      rw (unset, load_local-Stored token disk' k stored readable, served)
    where
      stored : Stored (bytes_of token) disk'
      stored =
          write_content-Stored disk disk' (bytes_of token) (host.marshal_local (bytes_of token))
            host.user_config_dir refl refl written
