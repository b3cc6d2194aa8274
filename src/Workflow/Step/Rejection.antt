-- ===== src/Workflow/Step/Rejection.antt =====
-- Approval steps: what a decision in the context does.
use servicedesk.Common.{◌↔◌, ℕ, Bool, true, false, ◌≡◌, refl, ◌≢◌, Option, some, arith}
use servicedesk.Store.{Result, ok}
use servicedesk.Workflow.{json, number, text, Value, flag, Host, WorkStep, approval, lookup}
use servicedesk.Workflow.Step.{decide_approval, run_kind, Scratch, run_step, decision_key}

Decided : Host → ℕ → Option ℕ → WorkStep → Scratch → Value → Scratch × Result Bool → Type 0
Decided h now ticket step s v r = (r.0 ≡ s) × ((r.1 ≡ ok false) ↔ (v ≡ flag true)) × (r.1 ≢ ok true)

decided :
    (h : Host) (now : ℕ) (ticket : Option ℕ) (step : WorkStep) (s : Scratch) (v : Value)
    → Decided h now ticket step s v (decide_approval h now ticket step (some v) s)
unfolding Decided decide_approval
decided h now ticket step s (flag true) = (refl, (λ _. refl, λ _. refl), λ e. grind arith)
decided h now ticket step s (flag false) = grind arith
decided h now ticket step s (text x) = grind arith
decided h now ticket step s (number x) = grind arith
decided h now ticket step s (json x) = grind arith

-- An approval step goes on exactly with the decision `true`: with any other decision in the context
-- the step fails, and a rejection never advances the task. In both cases it changes nothing.
pub approval_decided :
    (h : Host) (now : ℕ) (ticket : Option ℕ) (step : WorkStep) (s : Scratch) (v : Value)
    → step.kind ≡ approval
    → lookup (decision_key step.id) s.context ≡ some v
    → ((run_step h now ticket step s).0 ≡ s)
      × (((run_step h now ticket step s).1 ≡ ok false) ↔ (v ≡ flag true))
      × ((run_step h now ticket step s).1 ≢ ok true)
unfolding run_step run_kind Decided
approval_decided h now ticket step s v k d = rw (k, d, run_kind) (decided h now ticket step s v)
