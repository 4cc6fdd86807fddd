-- ===== src/Workflow/Examples.antt =====
-- src/surface/workflow.rs: a composite whose second step fails, after the first one wrote.
use mathlib.Core.Option
use min_mcp.Prelude.{
  ℕ, ◌+◌, String, ◌≡◌, ◌↔◌, refl, true, false, ◌&&◌, [], ◌∷◌, ◌=?◌, if◌then◌else◌, All,
}
use min_mcp.Json.{Value, null, bool, object, end, field, get}
use min_mcp.Results.{is_error_result, result_text}
use min_mcp.Results.Examples.{text}
use min_mcp.Workflow.{
  Workflow, Called, result, answered, Effect, write, is_write, is_no_answer, Report, rerun_is_safe,
  already_wrote, execute_workflow, run_steps, workflow_failure, wrote, extract,
}
use min_mcp.Workflow.Honest.{FailedAt, execute_workflow-FailedAt}

abbrev chain : Workflow
chain = record {
  id = "sell";
  steps =
      record { id = "product"; tool = "stripe.PostProducts"; input = null; output = [] }
      ∷ record { id = "price"; tool = "stripe.PostPrices"; input = null; output = [] }
      ∷ record { id = "link"; tool = "stripe.PostLinks"; input = null; output = [] }
      ∷ [];
  outputs = [];
}

-- Every call counts; prices are refused by the upstream.
call : String → Value → ℕ → ℕ × Called
call tool args n = (
  n + 1,
  if tool =? "stripe.PostPrices"
      then result (object (field "isError" (bool true) end)) answered
      else result (object end) answered,
)

all_write : String → Effect
all_write tool = write

abbrev outcome : Report
outcome =
    workflow_failure "sell"
      (record { id = "product"; tool = "stripe.PostProducts"; input = null; output = [] } ∷ [])
      (record { id = "price"; tool = "stripe.PostPrices"; input = null; output = [] })
      (record { id = "link"; tool = "stripe.PostLinks"; input = null; output = [] } ∷ []) ""
      answered [] all_write

product_wrote : outcome.fix ≡ already_wrote ("product" ∷ [])
unfolding workflow_failure wrote all_write
product_wrote = refl

execute_workflow-FailedAt_example :
    (f : FailedAt text call
      (λ t. false)
      all_write
      chain
      null
      []
      chain.steps
      []
      0
      (execute_workflow text call (λ t. false) all_write chain null 0).0
      outcome)
    × ((outcome.fix ≡ rerun_is_safe) ↔ (
        All (λ s. is_write (all_write s.tool) ≡ false) f.before
        × (is_no_answer f.reach && is_write (all_write f.step.tool) ≡ false)))
unfolding execute_workflow run_steps call is_error_result result_text get Option.bind extract
    workflow_failure
execute_workflow-FailedAt_example =
    execute_workflow-FailedAt text call (λ t. false) all_write chain null 0 outcome refl
