-- ===== src/Workflow/Controls.antt =====
-- The controls that the desktop offers for a workflow against what the workflow then accepts.
use job_apply_pro.Workflow.Trails.{valid-unconfirmed, invalid-err}
use job_apply_pro.Workflow.Apply.{
  IsRun, view, get_snapshot-run, moved, shown, apply_transition-invalid, apply_transition-ok,
}
use job_apply_pro.Base.{
  ◌==◌, contains, option_eq, nat_eq, string_eq, all, get_elem?, all-get_elem?, Outcome, ok, err, ℕ,
  String, ◌≡◌, refl, ◌≢◌, Bool, true, false, not, ◌&&◌, ◌||◌, some, List, [], ◌∷◌, arith, any, ◌∙◌,
  ◌⊎◌, inl, inr,
}
use job_apply_pro.Workflow.State.{
  WorkflowState, submission_confirmed, all_states, index, all_states-index, state_eq, value,
  user_takeover,
}
use job_apply_pro.Workflow.Transitions.{
  verification_eq, WorkflowError, TransitionCommand, workbench_state, invalid_transition,
  not_required, passed,
}
use job_apply_pro.Workflow.Table.{may_follow}
use job_apply_pro.Workflow.Events.{
  WorkflowEvent, DateTime, ApplicationRow, JobRow, CandidateProfileRow, Database,
}
use job_apply_pro.Workflow.Workbench.{
  WorkflowControlAction, advance, pause, resume, retry, takeover, stop, action_eq,
  allowed_workbench_controls, advance_target, resolve_target, apply_transition, get_workflow,
  control_command, control_workflow, last_prior,
}

abbrev all_actions : List WorkflowControlAction
all_actions = advance ∷ pause ∷ retry ∷ takeover ∷ stop ∷ []

abbrev action_index : WorkflowControlAction → ℕ
action_index advance = 0
action_index pause = 1
action_index retry = 2
action_index takeover = 3
action_index stop = 4
action_index resume = 5

all_actions-index :
    (x : WorkflowControlAction) → x ≢ resume → get_elem? all_actions (action_index x) ≡ some x
all_actions-index resume h = absurd (h refl)
all_actions-index _ h = refl

-- Only `resume` reads the events.
resolve_target-events :
    (s : WorkflowState) (es : List WorkflowEvent) (x : WorkflowControlAction)
    → x ≢ resume
    → resolve_target s es x ≡ resolve_target s [] x
unfolding resolve_target
resolve_target-events s es resume h = absurd (h refl)
resolve_target-events s es _ h = refl

-- the resolved target may follow, and is no confirmation
lands : WorkflowState → Outcome WorkflowError (WorkflowState × String) → Bool
lands s (err e) = false
lands s (ok (t, why)) = may_follow s t && not (t == submission_confirmed)

offer_lands : WorkflowState → WorkflowControlAction → Bool
offer_lands s x =
    not (contains (allowed_workbench_controls "workbench-mock" s) x)
    || lands s (resolve_target s [] x)

offers_land : all (λ s. all (offer_lands s) all_actions) all_states ≡ true
unfolding offer_lands lands resolve_target advance_target allowed_workbench_controls action_eq
    state_eq string_eq
offers_land = refl

offered-lands :
    (s : WorkflowState) (es : List WorkflowEvent) (x : WorkflowControlAction)
    → x ≢ resume
    → contains (allowed_workbench_controls "workbench-mock" s) x ≡ true
    → lands s (resolve_target s es x) ≡ true
unfolding offer_lands
offered-lands s es x ne offered = rw (resolve_target-events s es x ne) (
    let landed : offer_lands s x ≡ true =
      all-get_elem? (offer_lands s) all_actions (action_index x) x
        (all-get_elem? (λ u. all (offer_lands u) all_actions) all_states (index s) s offers_land
          (all_states-index s))
        (all_actions-index x ne) in
    ground arith)

lands-target :
    (s : WorkflowState) (m : Outcome WorkflowError (WorkflowState × String))
    → lands s m ≡ true
    → (t : WorkflowState) × (why : String) × (m ≡ ok (t, why))
      × (may_follow s t ≡ true)
      × (t ≢ submission_confirmed)
unfolding lands
lands-target s (err e) h = cc
lands-target s (ok (t, why)) h = (t, why, refl, ground arith, ground arith)

module _ (id : String) (now : DateTime) (w : String) (db : Database) (a : ApplicationRow)
    (j : JobRow) (k : CandidateProfileRow) (es : List WorkflowEvent) (run : IsRun w db a j k es)
    (s : WorkflowState) (at : a.state ≡ value s) where
  abbrev pub issued : WorkflowControlAction → WorkflowState → String → TransitionCommand
  issued x t why = control_command (view w a j k es s) x t why

  get_workflow-run : get_workflow w db ≡ ok (view w a j k es s)
  unfolding get_workflow
  get_workflow-run = rw (get_snapshot-run w db a j k es run s at) refl

  control-resolved :
      (x : WorkflowControlAction) (t : WorkflowState) (why : String)
      → contains (allowed_workbench_controls j.source s) x ≡ true
      → resolve_target s es x ≡ ok (t, why)
      → control_workflow id now w x db ≡ apply_transition id now w (issued x t why) db
  unfolding control_workflow
  control-resolved x t why offered to = rw get_workflow-run (rw offered (rw to refl))

  -- A control that the snapshot does not offer raises `WorkbenchStateError`.
  pub control_workflow-not_offered :
      (x : WorkflowControlAction)
      → contains (allowed_workbench_controls j.source s) x ≡ false
      → control_workflow id now w x db ≡ err workbench_state
  unfolding control_workflow
  control_workflow-not_offered x refused = rw get_workflow-run (rw refused refl)

  -- No control is offered for an application whose job is not the workbench's own.
  pub control_workflow-real :
      (x : WorkflowControlAction)
      → j.source ≢ "workbench-mock"
      → control_workflow id now w x db ≡ err workbench_state
  unfolding allowed_workbench_controls
  control_workflow-real x real = control_workflow-not_offered x (ground arith)

  module _ (fresh : any (λ r. id == r.id) db.events ≡ false) where
    -- Every offered control but resume succeeds: the workflow moves to a state that may follow, the
    -- event is logged, and the snapshot of the new state is returned.
    pub control_workflow-offered :
        (x : WorkflowControlAction)
        → x ≢ resume
        → j.source ≡ "workbench-mock"
        → contains (allowed_workbench_controls j.source s) x ≡ true
        → (t : WorkflowState) × (why : String) × (may_follow s t ≡ true)
          × (control_workflow id now w x db
              ≡ ok
                  (shown id now w (issued x t why) db a j k es, moved id now w (issued x t why) db))
    unfolding control_command
    control_workflow-offered x ne mock offered =
        let (t, why, to, follows_s, unconfirmed) =
          lands-target s (resolve_target s es x) (offered-lands s es x ne (rw mock at offered)) in
        (
          t,
          why,
          follows_s,
          control-resolved x t why offered to
              ∙ apply_transition-ok id now w (issued x t why) db a j k es run s at refl
                  (valid-unconfirmed (issued x t why) follows_s unconfirmed) fresh,
        )

    module _ (mock : j.source ≡ "workbench-mock") (paused : s ≡ user_takeover) where
      resume-offered : contains (allowed_workbench_controls j.source s) resume ≡ true
      unfolding allowed_workbench_controls action_eq state_eq string_eq
      resume-offered = rw mock (rw paused refl)

      resume-target :
          resolve_target s es resume
          ≡ ok (last_prior es, "User returned control to the supervised workflow.")
      unfolding resolve_target state_eq
      resume-target = rw paused refl

      abbrev pub resumed : TransitionCommand
      resumed = issued resume (last_prior es) "User returned control to the supervised workflow."

      resume-bad :
          (may_follow user_takeover (last_prior es) ≡ false)
            ⊎ (last_prior es ≡ submission_confirmed)
          → (may_follow s (last_prior es) ≡ false)
            ⊎ (last_prior es ≡ submission_confirmed) × (not_required ≢ passed)
      resume-bad (inl h) = inl (rw paused h)
      resume-bad (inr h) = inr (h, λ e. cc)

      -- Resume of a paused workbench workflow is offered, and returns to the state before the last
      -- event where that state may follow user_takeover and is not submission_confirmed.
      pub control_workflow-resume :
          may_follow user_takeover (last_prior es) ≡ true
          → last_prior es ≢ submission_confirmed
          → (contains (allowed_workbench_controls j.source s) resume ≡ true)
            × (control_workflow id now w resume db
                ≡ ok (shown id now w resumed db a j k es, moved id now w resumed db))
      unfolding control_command
      control_workflow-resume ok_state unconfirmed = (
        resume-offered,
        control-resolved resume (last_prior es) _ resume-offered resume-target
            ∙ apply_transition-ok id now w resumed db a j k es run s at refl
                (valid-unconfirmed resumed (rw paused ok_state) unconfirmed) fresh,
      )

      -- Resume of a paused workbench workflow is offered, and raises `InvalidTransitionError` where
      -- the state before the last event may not follow user_takeover or is submission_confirmed.
      pub control_workflow-resume_refused :
          (may_follow user_takeover (last_prior es) ≡ false)
            ⊎ (last_prior es ≡ submission_confirmed)
          → (contains (allowed_workbench_controls j.source s) resume ≡ true)
            × (control_workflow id now w resume db
                ≡ err (invalid_transition user_takeover (last_prior es)))
      unfolding control_command
      control_workflow-resume_refused bad = (
        resume-offered,
        control-resolved resume (last_prior es) _ resume-offered resume-target
            ∙ apply_transition-invalid id now w resumed db a j k es run s at
                (invalid_transition user_takeover (last_prior es)) refl
                (rw (← paused) (invalid-err resumed (resume-bad bad))),
      )
