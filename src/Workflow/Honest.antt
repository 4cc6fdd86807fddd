-- ===== src/Workflow/Honest.antt =====
-- src/surface/workflow.rs: a failure report against the run it is about.
use min_mcp.Prelude.{
  String, ◌≡◌, refl, sym, ap, ◌∙◌, inl, inr, ◌⊎◌, ◌↔◌, Bool, true, false, ◌&&◌, List, [], ◌∷◌, ◌++◌,
  if◌then◌else◌, Bool-cases, arith, All,
}
use mathlib.Core.List.{append_assoc, append-nil}
use min_mcp.Json.{Value}
use min_mcp.AuditChain.{JsonText}
use min_mcp.Results.{result_payload, is_error_result, result_text}
use min_mcp.Workflow.{
  Step, Workflow, Reach, Called, result, transport, Effect, is_write, is_no_answer, Outs, Fix,
  already_wrote, rerun_is_safe, wait_for_state, Report, wrote, workflow_failure, failed, run_steps,
  execute_workflow, extract, resolve_input,
}

module _ (J : JsonText) {W : Type 0} (call : String → Value → W → W × Called)
    (from_spec : String → Bool) (effect : String → Effect) where
  abbrev args_of : Workflow → Value → Step → Outs → Value
  args_of wf inputs step outs = resolve_input step.input inputs outs

  abbrev after_step : Step → Value → Outs → Outs
  after_step step r outs =
      extract step.id (result_payload J r (from_spec step.tool)) step.output outs

  -- Steps that were called in their order and succeeded: from some outputs and a world to others.
  abbrev pub Ran : Value → List Step → Outs → W → Outs → W → Type 0
  Ran inputs [] outs w outs' w' = (outs ≡ outs') × (w ≡ w')
  Ran inputs (step ∷ steps) outs w outs' w' =
      (r : Value) × (reach : Reach) × (w₁ : W) × (call step.tool
          (resolve_input step.input inputs outs) w
        ≡ (w₁, result r reach))
      × (is_error_result r ≡ false)
      × Ran inputs steps (after_step step r outs) w₁ outs' w'

  -- The error and the reach of a call that did not succeed: an error result's own, or no answer.
  abbrev pub IsFailure : Called → String → Reach → Type 0
  IsFailure (result r reach) error how =
      (is_error_result r ≡ true) × (error ≡ result_text r) × (how ≡ reach)
  IsFailure (transport e) error how = (error ≡ e) × (how ≡ Reach.no_answer)

  -- How a run from some outputs and a world failed and in which world it ended: the steps before were
  -- called and succeeded, the failed one was called after them and its call is the last.
  pub record FailedAt (wf : Workflow) (inputs : Value) (done steps : List Step) (outs₀ : Outs)
      (w₀ w_end : W) (r : Report) : Type 0 where
    pub before : List Step
    pub step : Step
    pub after : List Step
    pub is_split : steps ≡ before ++ (step ∷ after)
    pub outs : Outs
    pub world : W
    pub ran : Ran inputs before outs₀ w₀ outs world
    pub called : Called
    pub is_call : call step.tool (resolve_input step.input inputs outs) world ≡ (w_end, called)
    pub error : String
    pub reach : Reach
    pub is_failure : IsFailure called error reach
    pub is_report : r ≡ workflow_failure wf.id (done ++ before) step after error reach outs effect

  run-result :
      (wf : Workflow) (inputs : Value) (before after : List Step) (step : Step) (outs : Outs)
      (w w' : W) (r : Value) (reach : Reach)
      → call step.tool (resolve_input step.input inputs outs) w ≡ (w', result r reach)
      → is_error_result r ≡ false
      → run_steps J call from_spec effect wf inputs before (step ∷ after) outs w
        ≡ run_steps J call from_spec effect wf inputs
            (before ++ (step ∷ []))
            after
            (after_step step r outs)
            w'
  unfolding run_steps
  run-result wf inputs before after step outs w w' r reach e f = cc (e, f)

  run-error :
      (wf : Workflow) (inputs : Value) (before after : List Step) (step : Step) (outs : Outs)
      (w w' : W) (r : Value) (reach : Reach)
      → call step.tool (resolve_input step.input inputs outs) w ≡ (w', result r reach)
      → is_error_result r ≡ true
      → run_steps J call from_spec effect wf inputs before (step ∷ after) outs w
        ≡ (w', failed (workflow_failure wf.id before step after (result_text r) reach outs effect))
  unfolding run_steps
  run-error wf inputs before after step outs w w' r reach e f = cc (e, f)

  run-transport :
      (wf : Workflow) (inputs : Value) (before after : List Step) (step : Step) (outs : Outs)
      (w w' : W) (error : String)
      → call step.tool (resolve_input step.input inputs outs) w ≡ (w', transport error)
      → run_steps J call from_spec effect wf inputs before (step ∷ after) outs w
        ≡ (w', failed (workflow_failure wf.id before step after error Reach.no_answer outs effect))
  unfolding run_steps
  run-transport wf inputs before after step outs w w' error e = cc (e)

  Called-cases :
      (c : W × Called)
      → ((r : Value) × (reach : Reach) × (c ≡ (c.0, result r reach)))
        ⊎ ((e : String) × (c ≡ (c.0, transport e)))
  Called-cases (w, result r reach) = inl (r, reach, refl)
  Called-cases (w, transport e) = inr (e, refl)

  failed-inj : (r s : Report) → failed r ≡ failed s → r ≡ s
  failed-inj r s h = cc (h)

  failed_at :
      (wf : Workflow) (inputs : Value) (done steps : List Step) (outs : Outs) (w : W) (r : Report)
      → (run_steps J call from_spec effect wf inputs done steps outs w).1 ≡ failed r
      → FailedAt wf inputs done steps outs w
          (run_steps J call from_spec effect wf inputs done steps outs w).0
          r
  unfolding run_steps
  failed_at wf inputs done [] outs w r h = absurd (cc (h))
  failed_at wf inputs done (step ∷ after) outs w r h =
      let c = call step.tool (resolve_input step.input inputs outs) w in
      elim (Called-cases c) [
        | inr (e, f) ↦
            let all = run-transport wf inputs done after step outs w c.0 e f in
            record {
              before = [];
              step = step;
              after = after;
              is_split = refl;
              outs = outs;
              world = w;
              ran = (refl, refl);
              called = transport e;
              is_call = f ∙ ap (λ x. (x, transport e)) (sym (ap (λ x. x.0) all));
              error = e;
              reach = Reach.no_answer;
              is_failure = (refl, refl);
              is_report =
                  failed-inj r _ (sym h ∙ ap (λ x. x.1) all)
                  ∙ ap (λ d. workflow_failure wf.id d step after e Reach.no_answer outs effect)
                      (sym (append-nil done));
            }
        | inl (v, reach, f) ↦ elim (Bool-cases (is_error_result v)) [
          | inl g ↦
              let all = run-error wf inputs done after step outs w c.0 v reach f g in
              record {
                before = [];
                step = step;
                after = after;
                is_split = refl;
                outs = outs;
                world = w;
                ran = (refl, refl);
                called = result v reach;
                is_call = f ∙ ap (λ x. (x, result v reach)) (sym (ap (λ x. x.0) all));
                error = result_text v;
                reach = reach;
                is_failure = (g, refl, refl);
                is_report =
                    failed-inj r _ (sym h ∙ ap (λ x. x.1) all)
                    ∙ ap
                        (λ d. workflow_failure wf.id d step after (result_text v) reach outs effect)
                        (sym (append-nil done));
              }
          | inr g ↦
              let all = run-result wf inputs done after step outs w c.0 v reach f g in
              let rest =
                failed_at wf inputs (done ++ (step ∷ [])) after (after_step step v outs) c.0 r
                  (sym (ap (λ x. x.1) all) ∙ h) in
              record {
                before = step ∷ rest.before;
                step = rest.step;
                after = rest.after;
                is_split = ap (λ x. step ∷ x) rest.is_split;
                outs = rest.outs;
                world = rest.world;
                ran = (v, reach, c.0, f, g, rest.ran);
                called = rest.called;
                is_call = rest.is_call ∙ ap (λ x. (x, rest.called)) (sym (ap (λ x. x.0) all));
                error = rest.error;
                reach = rest.reach;
                is_failure = rest.is_failure;
                is_report =
                    rest.is_report
                    ∙ ap
                        (λ d.
                          workflow_failure wf.id d rest.step rest.after rest.error rest.reach
                            rest.outs effect)
                        (append_assoc done (step ∷ []) rest.before);
              }
        ]
      ]

  wrote-nil :
      (steps : List Step)
      → (wrote effect steps ≡ []) ↔ All (λ s. is_write (effect s.tool) ≡ false) steps
  unfolding wrote
  wrote-nil [] = (λ h. tt, λ h. refl)
  wrote-nil (s ∷ ss) = elim (Bool-cases (is_write (effect s.tool))) [
    | inl e ↦ (λ h. absurd (ground arith), λ (a, b). absurd (cc (a, e)))
    | inr e ↦
        (λ h. (e, (wrote-nil ss).0 (ground arith)), λ (a, b). ground (arith, (wrote-nil ss).1 b))
  ]

  advice : (ws : List String) (in_doubt : Bool) → Fix
  advice ws in_doubt = elim ws [
    | w ∷ ws ↦ already_wrote (w ∷ ws)
    | [] ↦ if in_doubt then wait_for_state else rerun_is_safe
  ]

  advice_safe :
      (ws : List String) (in_doubt : Bool)
      → (advice ws in_doubt ≡ rerun_is_safe) ↔ ((ws ≡ []) × (in_doubt ≡ false))
  unfolding advice
  advice_safe (w ∷ ws) in_doubt = (λ h. absurd (cc (h)), λ (a, b). absurd (cc (a)))
  advice_safe [] true = (λ h. absurd (cc (h)), λ (a, b). absurd (cc (b)))
  advice_safe [] false = (λ h. (refl, refl), λ p. refl)

  fix-advice :
      (id : String) (before : List Step) (step : Step) (after : List Step) (error : String)
      (reach : Reach) (outs : Outs)
      → (workflow_failure id before step after error reach outs effect).fix
        ≡ advice (wrote effect before) (is_no_answer reach && is_write (effect step.tool))
  unfolding workflow_failure advice
  fix-advice id before step after error reach outs = refl

  -- When a composite fails, its steps are split as its report has it: those before were called in their
  -- order and succeeded, the failed one was called next and did not succeed, and its call is the last, so that
  -- those after were not called. The error and the reach of the report are those of this call, where an
  -- error of the transport is no answer. The report says that a re-run repeats nothing exactly if no step
  -- before writes and the failed one, if it writes, was answered or never sent.
  pub execute_workflow-FailedAt :
      (wf : Workflow) (inputs : Value) (w : W) (r : Report)
      → (execute_workflow J call from_spec effect wf inputs w).1 ≡ failed r
      → (f : FailedAt wf inputs [] wf.steps [] w
          (execute_workflow J call from_spec effect wf inputs w).0
          r)
        × ((r.fix ≡ rerun_is_safe) ↔ (
            All (λ s. is_write (effect s.tool) ≡ false) f.before
            × (is_no_answer f.reach && is_write (effect f.step.tool) ≡ false)))
  unfolding execute_workflow
  execute_workflow-FailedAt wf inputs w r h =
      let f = failed_at wf inputs [] wf.steps [] w r h in
      let in_doubt = is_no_answer f.reach && is_write (effect f.step.tool) in
      let same : r.fix ≡ advice (wrote effect f.before) in_doubt =
        ap (λ (x : Report). x.fix) f.is_report
        ∙ fix-advice wf.id f.before f.step f.after f.error f.reach f.outs in
      let safe = advice_safe (wrote effect f.before) in_doubt in
      (
        f,
        (
          λ e.
              let (none_wrote, known) = safe.0 (sym same ∙ e) in
              ((wrote-nil f.before).0 none_wrote, known),
          λ (a, b). same ∙ safe.1 ((wrote-nil f.before).1 a, b),
        ),
      )
