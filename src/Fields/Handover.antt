-- ===== src/Fields/Handover.antt =====
-- The browser in the hands of `execute` of backend/src/job_apply_pro/services/field_execution.py.
use mathlib.Core.List.{append-nil}
use job_apply_pro.Base.{
  option_eq, nat_eq, string_eq, Outcome, ok, err, String, ◌≡◌, refl, ◌⊎◌, inl, inr, Option, List,
  [], ◌∷◌, ◌++◌, arith, sym, ap, ◌∙◌,
}
use job_apply_pro.Browser.{control_kind_eq, BrowserAction, BrowserObservation, BrowserActionResult}
use job_apply_pro.Fields.Data.{
  field_kind_eq, permission_eq, run_state_eq, ApplicationAnswerRecord,
  ApplicationFieldBindingRecord, SupervisedPortalRunSnapshot, ApplicationFieldExecution, FieldError,
  FieldStore,
}
use job_apply_pro.Fields.Execution.{
  BrowserCall, resume_call, takeover_call, action_call, FieldServices, FieldWorld, prepare,
  add_execution, perform, ApplicationFieldExecutionApproval, admit, called, conclude, act,
  hand_back, supervise, execute_admitted, execute,
}

-- What is called between the resumption and the takeover: nothing, or one action.
abbrev pub IsOneAction : String → List BrowserCall → Type 0
IsOneAction session calls =
    (calls ≡ []) ⊎ ((a : BrowserAction) × (calls ≡ action_call session a ∷ []))

-- The calls of one execution: none, a resumption that failed, or a resumption, at most one action and
-- a takeover.
abbrev pub IsHandedBack : FieldServices → List BrowserCall → List BrowserCall → Type 0
IsHandedBack services before after =
    (after ≡ before)
    ⊎ ((session : String) × (e : FieldError) × (services.resume session ≡ err e)
        × (after ≡ before ++ resume_call session ∷ []))
    ⊎ ((session : String) × (between : List BrowserCall) × IsOneAction session between
        × (after ≡ before ++ resume_call session ∷ (between ++ takeover_call session ∷ [])))

pub regroup :
    (xs ys : List BrowserCall) (a b : BrowserCall)
    → ((xs ++ a ∷ []) ++ ys) ++ b ∷ [] ≡ xs ++ a ∷ (ys ++ b ∷ [])
regroup [] ys a b = refl
regroup (x ∷ xs) ys a b = ap (λ zs. x ∷ zs) (regroup xs ys a b)

module _ (services : FieldServices) where
  add_execution-calls :
      (e : ApplicationFieldExecution) (w : FieldWorld)
      → (add_execution services e w).1.calls ≡ w.calls
  unfolding add_execution
  add_execution-calls e w = ground arith

  pub conclude-calls :
      (b : ApplicationFieldBindingRecord) (run : SupervisedPortalRunSnapshot)
      (r : Outcome FieldError BrowserActionResult) (w : FieldWorld)
      → (conclude services b run r w).1.calls ≡ w.calls
  conclude-calls b run (err e) w = refl
  conclude-calls b run (ok result) w = add_execution-calls _ w

  act-calls :
      (b : ApplicationFieldBindingRecord) (run : SupervisedPortalRunSnapshot)
      (r : Outcome FieldError BrowserAction) (w : FieldWorld)
      → (between : List BrowserCall) × IsOneAction run.browser_session_id between
        × ((act services b run r w).1.calls ≡ w.calls ++ between)
  act-calls b run (err e) w = ([], inl refl, sym (append-nil w.calls))
  act-calls b run (ok action) w = (
    action_call run.browser_session_id action ∷ [],
    inr (action, refl),
    conclude-calls b run (services.execute_action run.browser_session_id action) _,
  )

  pub hand_back-calls :
      (session : String) (r : Outcome FieldError (Unit {0}))
      (p : Outcome FieldError ApplicationFieldExecution × FieldWorld)
      → (hand_back services session r p).1.calls ≡ p.1.calls ++ takeover_call session ∷ []
  hand_back-calls session (ok _) p = refl
  hand_back-calls session (err e) p = refl

  supervise-calls :
      (b : ApplicationFieldBindingRecord) (run : SupervisedPortalRunSnapshot)
      (answer : ApplicationAnswerRecord) (r : Outcome FieldError (Option BrowserObservation))
      (w : FieldWorld)
      → services.resume run.browser_session_id ≡ r
      → IsHandedBack services w.calls
          (supervise services b run answer r
            (called services (resume_call run.browser_session_id) w)).1.calls
  unfolding perform
  supervise-calls b run answer (err e) w failed =
      inr (inl (run.browser_session_id, e, failed, refl))
  supervise-calls b run answer (ok observed) w resumed =
      let begun = called services (resume_call run.browser_session_id) w in
      let (between, one, made) = act-calls b run (prepare services b run answer observed) begun in
      inr (
        inr (
          run.browser_session_id,
          between,
          one,
          hand_back-calls run.browser_session_id (services.takeover run.browser_session_id)
                (perform services b run answer observed begun)
              ∙ ap (λ calls. calls ++ takeover_call run.browser_session_id ∷ []) made
              ∙ regroup w.calls between (resume_call run.browser_session_id)
                  (takeover_call run.browser_session_id),
        ))

  execute_admitted-calls :
      (r : Outcome FieldError
        (ApplicationFieldBindingRecord × SupervisedPortalRunSnapshot × ApplicationAnswerRecord))
      (w : FieldWorld)
      → IsHandedBack services w.calls (execute_admitted services r w).1.calls
  execute_admitted-calls (err e) w = inl refl
  execute_admitted-calls (ok (b, run, answer)) w =
      supervise-calls b run answer (services.resume run.browser_session_id) w refl

  -- An execution hands the browser back on every path, errors included: it makes no call, or it fails
  -- to resume the session, or it resumes it, makes at most one action on it, and ends with a takeover.
  pub execute-calls :
      (store : FieldStore) (run_id : String) (approval : ApplicationFieldExecutionApproval)
      (w : FieldWorld)
      → IsHandedBack services w.calls (execute services store run_id approval w).1.calls
  unfolding execute
  execute-calls store run_id approval w =
      execute_admitted-calls (admit services store run_id approval) w
