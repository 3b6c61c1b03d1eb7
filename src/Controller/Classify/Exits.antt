-- ===== src/Controller/Classify/Exits.antt =====
-- internal/controller/classify.go: what `classifyExit` decides, over all exit codes.
use jprq_bek.Base.{◌≡◌, ◌≢◌, ◌↔◌, ◌⊎◌, true, ℤ, pos, negsuc, arith}
use jprq_bek.Api.{CollisionBehavior, collision_retry}
use jprq_bek.Controller.Classify.{classify_exit}

-- The exits that carry a judgement of the jprq server which no retry can change.
abbrev pub IsFinal : CollisionBehavior → ℤ → Type 0
IsFinal b code =
    (code ≡ pos 11)
    ⊎ (code ≡ pos 12)
    ⊎ (code ≡ pos 13)
    ⊎ (code ≡ pos 14)
    ⊎ (code ≡ pos 15)
    ⊎ ((code ≡ pos 10) × (b ≢ collision_retry))

terminal-IsFinal :
    (code : ℤ) (b : CollisionBehavior) → (classify_exit code b).terminal ≡ true → IsFinal b code
unfolding classify_exit
terminal-IsFinal (pos n) b h = ground arith
terminal-IsFinal (negsuc n) b h = ground arith

IsFinal-terminal :
    (code : ℤ) (b : CollisionBehavior) → IsFinal b code → (classify_exit code b).terminal ≡ true
unfolding classify_exit
IsFinal-terminal (pos n) b h = ground arith
IsFinal-terminal (negsuc n) b h = ground arith

token_invalid-codes :
    (code : ℤ) (b : CollisionBehavior)
    → ((classify_exit code b).token_invalid ≡ true) ↔ ((code ≡ pos 13) ⊎ (code ≡ pos 15))
unfolding classify_exit
token_invalid-codes (pos n) b = ground arith
token_invalid-codes (negsuc n) b = ground arith

-- For every exit code and collision behaviour: the verdict is terminal exactly for codes 11 to 15, and
-- for code 10 unless the behaviour is retry; the pod is to be deleted exactly when the verdict is
-- terminal; and the token is called invalid exactly for codes 13 and 15.
pub classify_exit_flags :
    (code : ℤ) (b : CollisionBehavior)
    → (((classify_exit code b).terminal ≡ true) ↔ IsFinal b code)
      × ((classify_exit code b).delete_pod ≡ (classify_exit code b).terminal)
      × (((classify_exit code b).token_invalid ≡ true) ↔ ((code ≡ pos 13) ⊎ (code ≡ pos 15)))
unfolding classify_exit
classify_exit_flags code b =
    ((terminal-IsFinal code b, IsFinal-terminal code b), ground arith, token_invalid-codes code b)
