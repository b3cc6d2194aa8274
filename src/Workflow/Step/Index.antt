-- ===== src/Workflow/Step/Index.antt =====
-- How a step changes the index of its task (`runStep` of internal/workflow/engine.go).
use servicedesk.Common.{ℕ, Bool, ◌≡◌, ◌⊎◌, inl, Option, arith}
use servicedesk.Store.{Result}
use servicedesk.Workflow.{Host, WorkStep, StepType, condition}
use servicedesk.Workflow.Step.{Scratch, past_the_end, run_step, run_kind}

abbrev Moved : Scratch → Scratch × Result Bool → Type 0
Moved s r = (r.0.step_index ≡ s.step_index) ⊎ (r.0.step_index ≡ past_the_end)

run_kind_index :
    (k : StepType) (h : Host) (now : ℕ) (ticket : Option ℕ) (step : WorkStep) (s : Scratch)
    → Moved s (run_kind k h now ticket step s)
unfolding run_kind
run_kind_index condition h now ticket step s = ground arith
run_kind_index _ h now ticket step s = inl (ground arith)

pub run_step_index :
    (h : Host) (now : ℕ) (ticket : Option ℕ) (step : WorkStep) (s : Scratch)
    → Moved s (run_step h now ticket step s)
unfolding run_step
run_step_index h now ticket step s = run_kind_index step.kind h now ticket step s
