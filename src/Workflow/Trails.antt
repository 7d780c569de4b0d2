-- ===== src/Workflow/Trails.antt =====
-- Sequences of accepted transitions: what `validate_transition` rules out over the whole life of an
-- application, and what it always leaves possible.
use job_apply_pro.Base.{
  option_eq, nat_eq, string_eq, ok, err, ◌≡◌, ◌≢◌, ◌⊎◌, true, false, refl, ◌∙◌, inl, inr, arith, ℕ,
  suc, ◌≤◌,
}
use job_apply_pro.Workflow.State.{
  WorkflowState, submission_confirmed, state_eq, closed, failed_terminal,
}
use job_apply_pro.Workflow.Transitions.{
  passed, verification_eq, TransitionCommand, invalid_transition, validate_transition, not_required,
}
use job_apply_pro.Workflow.Table.{may_follow, is_allowed-eq-may_follow}

-- The commands that a workflow accepts one after the other.
pub data Trail : WorkflowState → WorkflowState → Type 0 where
  here : {s : WorkflowState} → Trail s s
  then :
      {s t : WorkflowState} (c : TransitionCommand)
      → c.current_state ≡ s
      → validate_transition c ≡ ok tt
      → Trail c.next_state t
      → Trail s t

-- One of the commands has the property.
abbrev pub Holds : (TransitionCommand → Type 0) → {s t : WorkflowState} → Trail s t → Type 0
Holds P here = ⊥
Holds P (then c at valid rest) = P c ⊎ Holds P rest

-- The command is accepted: it may follow, and it is no confirmation or its verification has passed.
abbrev pub Accepts : TransitionCommand → Type 0
Accepts c =
    (validate_transition c ≡ ok tt)
    × (may_follow c.current_state c.next_state ≡ true)
    × ((c.next_state ≢ submission_confirmed) ⊎ (c.verification ≡ passed))

-- The command is refused: it may not follow, or it is a confirmation whose verification has not passed.
abbrev pub Refuses : TransitionCommand → Type 0
Refuses c =
    (validate_transition c ≡ err (invalid_transition c.current_state c.next_state))
    × ((may_follow c.current_state c.next_state ≡ false)
        ⊎ (c.next_state ≡ submission_confirmed) × (c.verification ≢ passed))

module _ (c : TransitionCommand) where
  -- A command is accepted, and then the transition may follow, and it does not go to
  -- submission_confirmed or its verification has passed; or it raises `InvalidTransitionError` with its
  -- two states, and then the transition may not follow, or it goes to submission_confirmed and its
  -- verification has not passed.
  pub validate_transition-cases : Accepts c ⊎ Refuses c
  unfolding validate_transition
  validate_transition-cases = ground (arith, is_allowed-eq-may_follow c.current_state c.next_state)

  accepted-may_follow :
      validate_transition c ≡ ok tt → may_follow c.current_state c.next_state ≡ true
  accepted-may_follow h = ground (arith, validate_transition-cases)

  accepted-confirmed :
      validate_transition c ≡ ok tt → c.next_state ≡ submission_confirmed → c.verification ≡ passed
  accepted-confirmed h e = ground (arith, validate_transition-cases)

pub valid-unconfirmed :
    (c : TransitionCommand)
    → may_follow c.current_state c.next_state ≡ true
    → c.next_state ≢ submission_confirmed
    → validate_transition c ≡ ok tt
valid-unconfirmed c h k = ground (arith, validate_transition-cases c)

pub invalid-err :
    (c : TransitionCommand)
    → (may_follow c.current_state c.next_state ≡ false)
      ⊎ (c.next_state ≡ submission_confirmed) × (c.verification ≢ passed)
    → validate_transition c ≡ err (invalid_transition c.current_state c.next_state)
invalid-err c h = ground (arith, validate_transition-cases c)

-- A confirming command whose verification has passed.
abbrev pub IsConfirmation : TransitionCommand → Type 0
IsConfirmation c = (c.next_state ≡ submission_confirmed) × (c.verification ≡ passed)

-- A workflow that reaches submission_confirmed from another state has accepted a command into
-- submission_confirmed whose verification has passed.
pub confirmed_needs_passed :
    {s t : WorkflowState} (r : Trail s t)
    → s ≢ submission_confirmed
    → t ≡ submission_confirmed
    → Holds IsConfirmation r
confirmed_needs_passed here no_start end = absurd (no_start end)
confirmed_needs_passed (then c at valid rest) no_start end =
    elim (state_eq.dec c.next_state submission_confirmed) [
      | yes e ↦ inl (e, accepted-confirmed c valid e)
      | no other ↦ inr (confirmed_needs_passed rest other end)
    ]

closed_final :
    (c : TransitionCommand) → c.current_state ≡ closed → ¬ (validate_transition c ≡ ok tt)
closed_final c e h = ground (arith, accepted-may_follow c h)

stopped_next :
    (c : TransitionCommand)
    → c.current_state ≡ failed_terminal
    → validate_transition c ≡ ok tt
    → c.next_state ≡ closed
unfolding state_eq
stopped_next c e h = ground (arith, accepted-may_follow c h)

-- Nothing follows closed: a workflow that has been closed stays closed.
pub closed_absorbs : {s t : WorkflowState} → Trail s t → s ≡ closed → t ≡ closed
closed_absorbs here e = e
closed_absorbs (then c at valid rest) e = absurd (closed_final c (at ∙ e) valid)

-- A stopped workflow never runs again: from failed_terminal it stays there or is closed.
pub stopped_stays_stopped :
    {s t : WorkflowState} → Trail s t → s ≡ failed_terminal → (t ≡ failed_terminal) ⊎ (t ≡ closed)
stopped_stays_stopped here e = inl e
stopped_stays_stopped (then c at valid rest) e =
    inr (closed_absorbs rest (stopped_next c (at ∙ e) valid))

abbrev pub stop_command : WorkflowState → WorkflowState → TransitionCommand
stop_command s t = record {
  current_state = s;
  next_state = t;
  actor = "desktop-user";
  cause = "stop";
  verification = not_required;
  retry_count = 0;
}

may_stop :
    (s : WorkflowState) → s ≢ closed → s ≢ failed_terminal → may_follow s failed_terminal ≡ true
may_stop closed h k = absurd (h refl)
may_stop failed_terminal h k = absurd (k refl)
may_stop _ h k = refl

stop-accepted :
    (s t : WorkflowState)
    → may_follow s t ≡ true
    → t ≢ submission_confirmed
    → validate_transition (stop_command s t) ≡ ok tt
stop-accepted s t h k = valid-unconfirmed (stop_command s t) h k

abbrev pub steps : {s t : WorkflowState} → Trail s t → ℕ
steps here = 0
steps (then c at valid rest) = suc (steps rest)

pub close_follows : may_follow failed_terminal closed ≡ true
unfolding state_eq
close_follows = refl

close_stopped : Trail failed_terminal closed
unfolding state_eq
close_stopped =
    then (stop_command failed_terminal closed) refl
      (stop-accepted failed_terminal closed refl (λ e. cc)) here

-- From every state some accepted commands lead to closed, and two of them are enough.
pub closable : (s : WorkflowState) → (r : Trail s closed) × (steps r ≤ 2)
unfolding close_stopped state_eq
closable s = elim (state_eq.dec s closed) [
  | yes e ↦ rw e (here, omega arith)
  | no open_state ↦ elim (state_eq.dec s failed_terminal) [
    | yes e ↦ rw e (close_stopped, omega arith)
    | no running ↦ (
      then (stop_command s failed_terminal) refl
          (stop-accepted s failed_terminal (may_stop s open_state running) (λ e. cc)) close_stopped,
      omega arith,
    )
  ]
]
