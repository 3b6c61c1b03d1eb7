-- ===== src/Controller/Conditions/Honest.antt =====
-- internal/controller/jprqtunnel_controller.go, `reconcile`: the conditions, against the world.
use jprq_bek.Base.{◌↔◌, ◌≡◌, Bool, true, inl, inr, List, ℕ}
use jprq_bek.Api.{JprqTunnel, ready, token_ready, backend_ready}
use jprq_bek.Controller.Run.{Env, Run, Requeue}
use jprq_bek.Controller.Token.Evidence.{HasToken}
use jprq_bek.Controller.Backend.{BackendInfo}
use jprq_bek.Controller.Backend.Evidence.{HasBackend}
use jprq_bek.Controller.Settle.{Facts}
use jprq_bek.Controller.Reconcile.{reconcile}
use jprq_bek.Controller.Reconcile.Report.{
  Gathered, assigned_start, gather-Ends, Report, reports_active, reports_failed, reports_waiting,
  Serving, reconcile_honest,
}
use jprq_bek.Controller.Conditions.{KeepsConditions}
use jprq_bek.Controller.Conditions.Told.{
  Done-both, Ends-Done, Tells, is_active, Done, Done-continue, Done-mono,
}
use jprq_bek.Controller.Conditions.Gathering.{gather-Read}
use jprq_bek.Controller.Conditions.Settling.{Ended, settle-Told}

module _ (env : Env) (tunnel : JprqTunnel) where
  -- The three conditions are set; `Ready` is true exactly in the phase active, and then the agent
  -- serves; `TokenReady` is true only if the token is there, and `BackendReady` exactly if the backend is.
  pub record HonestConditions (s : Run) : Type 0 where
    pub tells_ready : Tells s.status.conditions ready (is_active s.status.phase)
    pub serving : is_active s.status.phase ≡ true → Serving env tunnel
    pub token_told : Bool
    pub tells_token : Tells s.status.conditions token_ready token_told
    pub has_token : token_told ≡ true → (token : List ℕ) × HasToken env tunnel token
    pub backend_told : Bool
    pub tells_backend : Tells s.status.conditions backend_ready backend_told
    pub has_backend :
        (backend_told ≡ true) ↔ ((backend : BackendInfo) × HasBackend env tunnel backend)

  report_serving :
      (rq : Requeue) (s : Run)
      → Report env tunnel rq s
      → is_active s.status.phase ≡ true
      → Serving env tunnel
  report_serving rq s (reports_active p r serving) h = serving
  report_serving rq s (reports_failed p r rejected) h = cc
  report_serving rq s (reports_waiting (inl p) r) h = cc
  report_serving rq s (reports_waiting (inr p) r) h = cc

module _ (env : Env) (tunnel : JprqTunnel)
    (keeps : KeepsConditions env.ext.set_status_condition) where
  -- What the second half leaves, with what the first half has read.
  record Concluded (s : Run) : Type 0 where
    facts : Facts
    start : Run
    before : Run
    gathered : Gathered env tunnel start facts before
    backend_found : (b : BackendInfo) → HasBackend env tunnel b → facts.backend_gate.passed ≡ true
    ended :
        Ended env tunnel keeps facts.token_gate.passed facts.backend_gate.passed s.status.phase
          s.status.conditions

  honest :
      (rq : Requeue) (s : Run)
      → Report env tunnel rq s
      → Concluded s
      → HonestConditions env tunnel s
  honest rq s report c =
      let kept = c.ended.kept in
      record {
        tells_ready = c.ended.tells_ready;
        serving = report_serving env tunnel rq s report;
        token_told = kept.told;
        tells_token = kept.tells_token;
        has_token = λ told. (c.facts.token, c.gathered.has_token (kept.only told));
        backend_told = c.facts.backend_gate.passed;
        tells_backend = kept.tells_backend;
        has_backend = (
          λ told. (c.facts.backend, c.gathered.has_backend told),
          λ found. c.backend_found found.0 found.1,
        );
      }

  concluded : (s : Run) → Done (λ rq s'. Concluded s') (reconcile env tunnel s)
  unfolding reconcile
  concluded s =
      Done-continue _ _
        (Done-both _ (Ends-Done _ (gather-Ends env tunnel s)) (gather-Read env tunnel keeps s))
        (λ f s₁ known.
          let (g, read) = known in
          Done-mono _
            (λ rq s₂ ended. record {
              facts = f;
              start = assigned_start env tunnel s;
              before = s₁;
              gathered = g;
              backend_found = read.backend_found;
              ended = ended;
            })
            (settle-Told env tunnel keeps f.token_gate.passed f.backend_gate.passed f s₁ (record {
              told = f.token_gate.passed;
              only = λ told. told;
              tells_token = read.token;
              tells_backend = read.backend;
            })))

-- The conditions are honest. If `SetStatusCondition` sets a condition, keeps those of other types, and
-- changes nothing where the conditions say the same already, then a reconciliation that returns no error leaves all three conditions set: `Ready` is true exactly
-- in the phase active, and only if the agent pod serves; `TokenReady` is true only if the Secret holds a
-- token that is not blank; `BackendReady` is true exactly if the Service declares the port and has a
-- ready endpoint.
pub conditions_honest :
    (env : Env) (tunnel : JprqTunnel) (s : Run)
    → KeepsConditions env.ext.set_status_condition
    → Done (λ rq. HonestConditions env tunnel) (reconcile env tunnel s)
conditions_honest env tunnel s keeps =
    Done-mono _ (λ rq s' known. honest env tunnel keeps rq s' known.0 known.1)
      (Done-both _ (Ends-Done _ (reconcile_honest env tunnel s)) (concluded env tunnel keeps s))
