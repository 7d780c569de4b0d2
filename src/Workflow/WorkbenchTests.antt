-- ===== src/Workflow/WorkbenchTests.antt =====
-- The workbench at concrete inputs, each theorem where its hypotheses hold.
use text.Mathlib.TextEquality.{eq_iff}
use job_apply_pro.Base.{
  contains, option_eq, nat_eq, string_eq, ok, err, String, ◌≡◌, refl, ◌≢◌, inl, true, [], ◌∷◌,
  arith,
}
use job_apply_pro.Workflow.State.{
  WorkflowState, discovered, assessment_pending, user_takeover, state_eq,
}
use job_apply_pro.Workflow.Transitions.{
  not_required, verification_eq, TransitionCommand, invalid_transition,
}
use job_apply_pro.Workflow.Table.{may_follow}
use job_apply_pro.Workflow.Events.{aware}
use job_apply_pro.Workflow.Workbench.{
  advance, resume, action_eq, allowed_workbench_controls, apply_transition, control_workflow,
}
use job_apply_pro.Workflow.Apply.{moved, shown, apply_transition-ok}
use job_apply_pro.Workflow.Controls.{
  issued, control_workflow-offered, control_workflow-resume_refused,
}
use job_apply_pro.Workflow.Samples.{
  run_row, mock_job, profile, fresh_db, pause_command, pause_valid, fresh_run, offered_example,
  paused_row, takeover_from, takeover_db, assessment_run, new_id,
}

apply_transition-ok_example :
    apply_transition "e1" (aware 5) "mock-1" pause_command fresh_db
    ≡ ok (
      shown "e1" (aware 5) "mock-1" pause_command fresh_db run_row mock_job profile [],
      moved "e1" (aware 5) "mock-1" pause_command fresh_db,
    )
apply_transition-ok_example =
    apply_transition-ok "e1" (aware 5) "mock-1" pause_command fresh_db run_row mock_job profile []
      fresh_run discovered refl refl pause_valid refl

mock_1-ne-mock_2 : ◌≢◌ {A = String} "mock-1" "mock-2"
mock_1-ne-mock_2 = ground (arith, eq_iff "mock-1" "mock-2")

control_workflow-offered_example :
    (t : WorkflowState) × (why : String) × (may_follow discovered t ≡ true)
    × (control_workflow "e1" (aware 5) "mock-1" advance fresh_db
        ≡ ok (
          shown "e1"
              (aware 5)
              "mock-1"
              (issued "e1"
                (aware 5)
                "mock-1"
                fresh_db
                run_row
                mock_job
                profile
                []
                fresh_run
                discovered
                refl
                advance
                t
                why)
              fresh_db
              run_row
              mock_job
              profile
              [],
          moved "e1"
              (aware 5)
              "mock-1"
              (issued "e1"
                (aware 5)
                "mock-1"
                fresh_db
                run_row
                mock_job
                profile
                []
                fresh_run
                discovered
                refl
                advance
                t
                why)
              fresh_db,
        ))
control_workflow-offered_example =
    control_workflow-offered "e1" (aware 5) "mock-1" fresh_db run_row mock_job profile [] fresh_run
      discovered refl refl advance (λ e. cc) refl offered_example

abbrev resume_command : WorkflowState → TransitionCommand
resume_command s = record {
  current_state = user_takeover;
  next_state = s;
  actor = "desktop-user";
  cause = "User returned control to the supervised workflow.";
  verification = not_required;
  retry_count = 0;
}

mock_source : mock_job.source ≡ "workbench-mock"
mock_source = refl

control_workflow-resume_refused_example :
    (contains (allowed_workbench_controls "workbench-mock" user_takeover) resume ≡ true)
    × (control_workflow "e1" (aware 5) "mock-1" resume (takeover_db assessment_pending)
        ≡ err (invalid_transition user_takeover assessment_pending))
control_workflow-resume_refused_example =
    control_workflow-resume_refused "e1" (aware 5) "mock-1" (takeover_db assessment_pending)
      paused_row mock_job profile (takeover_from assessment_pending ∷ []) assessment_run
      user_takeover refl (new_id assessment_pending) refl refl (inl refl)
