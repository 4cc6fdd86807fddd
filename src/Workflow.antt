-- ===== src/Workflow.antt =====
-- src/surface/workflow.rs: composites, linear chains of steps run as one call, and the report of a failure.
-- `Workflow` and `Step` are of src/config.rs, `Reach` of src/backend.rs.
-- A call of a tool is an argument: it takes and returns the state of the world. The report is what the
-- code prints in it; the wording of its `fix` is the data type `Fix`. Log events are not modelled.
pub mod Examples
pub mod Honest
use mathlib.Core.Option
use min_mcp.Prelude.{
  String, ◌<>◌, Bool, true, false, not, ◌&&◌, List, [], ◌∷◌, ◌++◌, map, Option, none, some, ◌==◌,
  ◌=?◌, if◌then◌else◌, unwrap_or,
}
use min_mcp.Json.{
  Value, null, bool, number, string, array, object, Items, nil, cons, Fields, end, field,
}
use Prim.Native.Char.{code}
use min_mcp.Results.Shape.{budget_truncate}
use min_mcp.AuditChain.{JsonText}
use min_mcp.Results.{get_path, result_payload, result_text, is_error_result}

pub record Step : Type 0 where
  pub id : String
  pub tool : String
  pub input : Value
  pub output : List (String × String)

pub record Workflow : Type 0 where
  pub id : String
  pub steps : List Step
  pub outputs : List (String × Value)

pub data Reach : Type 0 where
  not_sent no_answer answered : Reach

-- What `dispatch_reach` gives: a result and how far the call got, or an error of the transport.
pub data Called : Type 0 where
  result : Value → Reach → Called
  transport : String → Called

pub data Effect : Type 0 where
  read write : Effect

abbrev pub is_write : Effect → Bool
is_write write = true
is_write read = false

abbrev pub is_no_answer : Reach → Bool
is_no_answer no_answer = true
is_no_answer _ = false

-- Outputs of steps under "id.name": the last insertion counts.
abbrev pub Outs : Type 0
Outs = List (String × Value)

unfoldable pub lookup : String → Outs → Option Value
lookup k [] = none
lookup k ((j, v) ∷ outs) = if j =? k then some v else lookup k outs

-- `s.strip_prefix(p)`
unfoldable pub strip_prefix : String → String → Option String
strip_prefix String.[] s = some s
strip_prefix (String.◌∷◌ d p) String.[] = none
strip_prefix (String.◌∷◌ d p) (String.◌∷◌ c s) =
    let rest = strip_prefix p s in if code c == code d then rest else none

pub resolve_ref : String → Value → Outs → Option Value
unfolding strip_prefix lookup
resolve_ref s inputs steps = elim (strip_prefix "$inputs." s) [
  | some rest ↦ some (unwrap_or (get_path inputs rest) null)
  | none ↦ elim (strip_prefix "$steps." s) [ some rest ↦ lookup rest steps | none ↦ none ]
]

mutual
  unfolding resolve_ref

  pub resolve_input : Value → Value → Outs → Value
  resolve_input (string s) inputs steps = unwrap_or (resolve_ref s inputs steps) (string s)
  resolve_input (object m) inputs steps = object (resolve_fields m inputs steps)
  resolve_input (array a) inputs steps = array (resolve_items a inputs steps)
  resolve_input null inputs steps = null
  resolve_input (bool b) inputs steps = bool b
  resolve_input (number n) inputs steps = number n

  pub resolve_fields : Fields → Value → Outs → Fields
  resolve_fields end inputs steps = end
  resolve_fields (field k v m) inputs steps =
      field k (resolve_input v inputs steps) (resolve_fields m inputs steps)

  pub resolve_items : Items → Value → Outs → Items
  resolve_items nil inputs steps = nil
  resolve_items (cons v vs) inputs steps =
      cons (resolve_input v inputs steps) (resolve_items vs inputs steps)

-- `step_effect`, of what the upstream says of the tool
pub step_effect : Option Bool → Effect
step_effect (some true) = read
step_effect (some false) = write
step_effect none = write

-- `for (name, path) in &step.output`: what is found in the payload is put in.
unfoldable pub extract : String → Value → List (String × String) → Outs → Outs
extract id payload [] outs = outs
extract id payload ((name, path) ∷ rest) outs = elim (get_path payload path) [
  | none ↦ extract id payload rest outs
  | some v ↦ extract id payload rest (((id <> "." <> name), v) ∷ outs)
]

-- The outputs a completed step has.
unfoldable pub step_outputs : String → List (String × String) → Outs → List (String × Value)
unfolding lookup
step_outputs id [] outs = []
step_outputs id ((name, path) ∷ rest) outs =
    let more = step_outputs id rest outs in
    elim (lookup (id <> "." <> name) outs) [ none ↦ more | some v ↦ (name, v) ∷ more ]

-- The advice of a report.
pub data Fix : Type 0 where
  -- These steps already took effect: do not re-run.
  already_wrote : List String → Fix
  -- Nothing was written before, but the failed step's state is not known.
  wait_for_state : Fix
  rerun_is_safe : Fix

pub record Completed : Type 0 where
  pub step : String
  pub tool : String
  pub effect : Effect
  pub outputs : List (String × Value)

pub record Report : Type 0 where
  pub workflow : String
  pub fix : Fix
  pub check_state : Bool
  pub failed_step : String
  pub failed_tool : String
  pub outcome : Reach
  pub error : String
  pub completed : List Completed
  pub not_run : List (String × String)

unfoldable pub wrote : (String → Effect) → List Step → List String
wrote effect [] = []
wrote effect (s ∷ ss) =
    let rest = wrote effect ss in if is_write (effect s.tool) then s.id ∷ rest else rest

-- The steps before the failed one, the failed one, and those after it.
pub workflow_failure :
    String → List Step → Step → List Step → String → Reach → Outs → (String → Effect) → Report
unfolding wrote step_outputs
workflow_failure id before step after error reach outs effect =
    let in_doubt = is_no_answer reach && is_write (effect step.tool) in
    record {
      workflow = id;
      fix = elim (wrote effect before) [
        | w ∷ ws ↦ already_wrote (w ∷ ws)
        | [] ↦ if in_doubt then wait_for_state else rerun_is_safe
      ];
      check_state = in_doubt;
      failed_step = step.id;
      failed_tool = step.tool;
      outcome = reach;
      error = budget_truncate error 2_000 "…[truncated]";
      completed =
          map
            (λ (s : Step). record {
              step = s.id;
              tool = s.tool;
              effect = effect s.tool;
              outputs = step_outputs s.id s.output outs;
            })
            before;
      not_run = map (λ (s : Step). (s.id, s.tool)) after;
    }

pub data Outcome : Type 0 where
  finished : List (String × Value) → Outcome
  failed : Report → Outcome

module _ (J : JsonText) {W : Type 0} (call : String → Value → W → W × Called)
    (from_spec : String → Bool) (effect : String → Effect) where
  -- The loop: `before` are the steps that ran.
  pub run_steps : Workflow → Value → List Step → List Step → Outs → W → W × Outcome
  unfolding resolve_input extract workflow_failure
  run_steps wf inputs before [] outs w =
      (w, finished (map (λ (o : String × Value). (o.0, resolve_input o.1 inputs outs)) wf.outputs))
  run_steps wf inputs before (step ∷ after) outs w =
      let (w', called) = call step.tool (resolve_input step.input inputs outs) w in
      let fail = λ (error : String) (reach : Reach).
        failed (workflow_failure wf.id before step after error reach outs effect) in
      let next = λ (r : Value).
        run_steps wf inputs (before ++ (step ∷ [])) after
          (extract step.id (result_payload J r (from_spec step.tool)) step.output outs) w' in
      elim called [
        | result r reach ↦
            if not (is_error_result r) then next r else (w', fail (result_text r) reach)
        | transport e ↦ (w', fail e no_answer)
      ]

  pub execute_workflow : Workflow → Value → W → W × Outcome
  unfolding run_steps
  execute_workflow wf inputs w = run_steps wf inputs [] wf.steps [] w
