-- ===== src/Challenge/World.antt =====
-- backend/src/job_apply_pro/storage/challenge_repository.py, and the calls that write before they
-- raise: an action returns or raises, and leaves a world in both cases.
use job_apply_pro.Base.{
  if◌then◌else◌, ◌==◌, option_eq, nat_eq, string_eq, any, keep, find, max?, Outcome, ok, err,
  raise_if, or_raise, ℕ, ◌+◌, String, Bool, ◌&&◌, ◌||◌, Option, none, some, List, [], ◌∷◌, ◌++◌,
  map,
}
use job_apply_pro.Workflow.State.{state_eq}
use job_apply_pro.Workflow.Transitions.{verification_eq, WorkflowError}
use job_apply_pro.Workflow.Events.{Database}
use job_apply_pro.Challenge.Session.{kind_eq, status_eq, ChallengeSessionSnapshot, ChallengeEvent}

-- `LookupError`, `ChallengeServiceError`, `ChallengeInterventionRequiredError`, the errors of the
-- workbench, `ChallengeDetectionError`, the database's refusal of a second key, pydantic's refusal of an action's fields, and
-- what the browser raises.
pub data ChallengeError : Type 0 where
  not_found : ChallengeError
  service_error : ChallengeError
  needs_intervention : ChallengeError
  workflow_error : WorkflowError → ChallengeError
  duplicate_key : ChallengeError
  validation_error : ChallengeError
  browser_error : ChallengeError
  detection_error : ChallengeError

pub record World : Type 0 where
  pub sessions : List ChallengeSessionSnapshot
  pub session_events : List ChallengeEvent
  pub database : Database

abbrev pub Act : Type 0 → Type 0
Act A = World → Outcome ChallengeError A × World

abbrev pub continue :
    {A B : Type 0}
    → Outcome ChallengeError A × World
    → (A → Act B)
    → Outcome ChallengeError B × World
continue (ok a, w) next = next a w
continue (err e, w) next = (err e, w)

infixl 5 ◌>>=◌ ◌>>◌
abbrev pub ◌>>=◌ : {A B : Type 0} → Act A → (A → Act B) → Act B
m >>= next = λ w. continue (m w) next

abbrev pub ◌>>◌ : {B : Type 0} → Act (Unit {0}) → Act B → Act B
first >> next = first >>= λ _. next

abbrev pub return : {A : Type 0} → A → Act A
return a w = (ok a, w)

-- A call that reads only, or that raises.
abbrev pub lift : {A : Type 0} → Outcome ChallengeError A → Act A
lift m w = (m, w)

abbrev pub raise_when : Bool → ChallengeError → Act (Unit {0})
raise_when b e = lift (raise_if b e)

abbrev pub require : {A : Type 0} → Option A → ChallengeError → Act A
require o e = lift (or_raise o e)

unfoldable pub put_session :
    ChallengeSessionSnapshot → List ChallengeSessionSnapshot → List ChallengeSessionSnapshot
put_session s [] = s ∷ []
put_session s (t ∷ rest) = if t.id == s.id then s ∷ rest else t ∷ put_session s rest

unfoldable pub save : ChallengeSessionSnapshot → Act (Unit {0})
unfolding put_session
save s w = (ok tt, record w { sessions = put_session s w.sessions })

unfoldable pub find_session :
    String → List ChallengeSessionSnapshot → Option ChallengeSessionSnapshot
find_session id rows = find (λ s. s.id == id) rows

unfoldable pub next_event_sequence : String → World → ℕ
next_event_sequence id w =
    elim (max? (map (λ e. e.sequence) (keep (λ e. e.session_id == id) w.session_events))) [
      | none ↦ 1
      | some latest ↦ latest + 1
    ]

-- The primary key, and the unique constraint on session and sequence.
unfoldable pub add_event : ChallengeEvent → Act (Unit {0})
add_event e w =
    if any (λ x. e.id == x.id || (e.session_id == x.session_id && e.sequence == x.sequence))
      w.session_events
    then (err duplicate_key, w)
    else (ok tt, record w { session_events = w.session_events ++ e ∷ [] })
