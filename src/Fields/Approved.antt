-- ===== src/Fields/Approved.antt =====
-- Every action on a page was approved: `execute` of
-- backend/src/job_apply_pro/services/field_execution.py, from its calls of the browser.
use job_apply_pro.Fields.Handover.{regroup, conclude-calls}
use job_apply_pro.Fields.Handover.{hand_back-calls}
use mathlib.Core.List.{append-nil, append_assoc}
use job_apply_pro.Base.{
  option_eq, nat_eq, string_eq, ok, String, ◌≡◌, Option, ◌++◌, arith, Outcome, err, refl, List, [],
  ◌∷◌, length, ◌<◌, sym, ap, ◌∙◌,
}
use job_apply_pro.Browser.{control_kind_eq, BrowserAction, BrowserObservation}
use job_apply_pro.Fields.Data.{
  field_kind_eq, permission_eq, run_state_eq, ApplicationAnswerRecord,
  ApplicationFieldBindingRecord, SupervisedPortalRunSnapshot, FieldStore, FieldError,
}
use job_apply_pro.Fields.Classification.{coverage_eq}
use job_apply_pro.Fields.Execution.{
  FieldServices, prepare, ApplicationFieldExecutionApproval, BrowserCall, resume_call,
  takeover_call, action_call, FieldWorld, admit, called, act, execute_admitted, execute, perform,
  supervise,
}
use job_apply_pro.Fields.Approval.{IsApproved, IsOnPage, IsBoundAnswer, admit-inv}
use job_apply_pro.Fields.Prepared.{IsPrepared, prepare-inv}

-- The three calls of an execution that acted.
abbrev pub acted_on : String → BrowserAction → List BrowserCall
acted_on session a = resume_call session ∷ action_call session a ∷ takeover_call session ∷ []

tail_path : {a b : BrowserCall} {xs ys : List BrowserCall} → a ∷ xs ≡ b ∷ ys → xs ≡ ys
tail_path e = cc

append_cancel : (xs ys zs : List BrowserCall) → xs ++ ys ≡ xs ++ zs → ys ≡ zs
append_cancel [] ys zs h = h
append_cancel (x ∷ xs) ys zs h = append_cancel xs ys zs (tail_path h)

too_short : (xs ys zs : List BrowserCall) → length ys < length zs → xs ++ ys ≡ xs ++ zs → ⊥
too_short xs ys zs short h = let same = ap length (append_cancel xs ys zs h) in omega arith

same_action : (s s' : String) (a a' : BrowserAction) → acted_on s a ≡ acted_on s' a' → a ≡ a'
same_action s s' a a' h = cc

-- The action behind these three calls, where a session was resumed.
prepared_action :
    (services : FieldServices) (b : ApplicationFieldBindingRecord)
    (run : SupervisedPortalRunSnapshot) (r : Outcome FieldError BrowserAction) (w : FieldWorld)
    (session : String) (a : BrowserAction)
    → (act services b run r (called services (resume_call run.browser_session_id) w)).1.calls
        ++ takeover_call run.browser_session_id ∷ []
      ≡ w.calls ++ acted_on session a
    → r ≡ ok a
prepared_action services b run (err e) w session a h = absurd (
    too_short w.calls
      (resume_call run.browser_session_id ∷ takeover_call run.browser_session_id ∷ [])
      (acted_on session a) (omega arith)
      (sym (
          append_assoc w.calls (resume_call run.browser_session_id ∷ [])
            (takeover_call run.browser_session_id ∷ []))
        ∙ h))
prepared_action services b run (ok action) w session a h =
    let begun = called services (resume_call run.browser_session_id) w in
    let regrouped =
      regroup w.calls (action_call run.browser_session_id action ∷ [])
        (resume_call run.browser_session_id) (takeover_call run.browser_session_id) in
    let made =
      ap (λ calls. calls ++ takeover_call run.browser_session_id ∷ [])
        (conclude-calls services b run (services.execute_action run.browser_session_id action)
          (called services (action_call run.browser_session_id action) begun)) in
    ap ok (
      same_action run.browser_session_id session action a
        (append_cancel w.calls _ _ (sym regrouped ∙ (sym made ∙ h))))

-- What stands behind an action on a page.
abbrev pub Approved :
    FieldServices → FieldStore → String → ApplicationFieldExecutionApproval → BrowserAction → Type 0
Approved services store run_id approval a =
    (b : ApplicationFieldBindingRecord) × (run : SupervisedPortalRunSnapshot)
    × (answer : ApplicationAnswerRecord) × (observed : Option BrowserObservation) × IsApproved
        services store approval b
    × IsOnPage store run_id approval b run
    × IsBoundAnswer store b run answer
    × (services.resume run.browser_session_id ≡ ok observed)
    × IsPrepared services b run answer observed a

module _ (services : FieldServices) (store : FieldStore) (run_id : String)
    (approval : ApplicationFieldExecutionApproval) (w : FieldWorld) (session : String)
    (a : BrowserAction) where
  supervise-Approved :
      (b : ApplicationFieldBindingRecord) (run : SupervisedPortalRunSnapshot)
      (answer : ApplicationAnswerRecord) (r : Outcome FieldError (Option BrowserObservation))
      → admit services store run_id approval ≡ ok (b, run, answer)
      → services.resume run.browser_session_id ≡ r
      → (supervise services b run answer r
          (called services (resume_call run.browser_session_id) w)).1.calls
        ≡ w.calls ++ acted_on session a
      → Approved services store run_id approval a
  unfolding perform
  supervise-Approved b run answer (err e) admitted resumed h = absurd (
      too_short w.calls (resume_call run.browser_session_id ∷ []) (acted_on session a) (omega arith)
        h)
  supervise-Approved b run answer (ok observed) admitted resumed h =
      let (approved, on_page, bound) =
        admit-inv services store run_id approval b run answer admitted in
      let prepared =
        prepared_action services b run (prepare services b run answer observed) w session a (
          sym (
            hand_back-calls services run.browser_session_id
              (services.takeover run.browser_session_id) _)
          ∙ h) in
      (
        b,
        run,
        answer,
        observed,
        approved,
        on_page,
        bound,
        resumed,
        prepare-inv services b run answer observed a prepared,
      )

  execute_admitted-Approved :
      (r : Outcome FieldError
        (ApplicationFieldBindingRecord × SupervisedPortalRunSnapshot × ApplicationAnswerRecord))
      → admit services store run_id approval ≡ r
      → (execute_admitted services r w).1.calls ≡ w.calls ++ acted_on session a
      → Approved services store run_id approval a
  execute_admitted-Approved (err e) admitted h =
      absurd (too_short w.calls [] (acted_on session a) (omega arith) (append-nil w.calls ∙ h))
  execute_admitted-Approved (ok (b, run, answer)) admitted h =
      supervise-Approved b run answer (services.resume run.browser_session_id) admitted refl h

  -- Where an execution resumes a session, acts once and hands the browser back, this held: the service
  -- is on and the phrase given; the binding allows autofill; the run waits for the user on the reviewed
  -- page, which is still live; the answer is unchanged; a new preview of it on the one bound control is
  -- compatible and has the fingerprint that the binding's review had; and the action is that of this
  -- control, which is no attestation and is neither hidden, disabled nor repeated, for the answer that
  -- was decrypted.
  pub execute-Approved :
      (execute services store run_id approval w).1.calls ≡ w.calls ++ acted_on session a
      → Approved services store run_id approval a
  unfolding execute
  execute-Approved h = execute_admitted-Approved (admit services store run_id approval) refl h
