-- ===== src/Challenge/Review.antt =====
-- What stands behind a challenge that was handed in: `complete` of
-- backend/src/job_apply_pro/services/challenges.py.
use mathlib.Core.Path.{subst}
use job_apply_pro.Base.{
  ◌==◌, option_eq, nat_eq, string_eq, ok, String, ◌≡◌, true, false, not, ◌||◌, some, refl, ap, ◌∙◌,
  Option, none, arith,
}
use job_apply_pro.Challenge.Session.{
  kind_eq, review_required, status_eq, ChallengeCompletionCommand, ChallengeSessionSnapshot,
  of_page,
}
use job_apply_pro.Browser.{control_kind_eq, BrowserObservation, BrowserActionResult}
use job_apply_pro.Challenge.Browser.{completion_action}
use job_apply_pro.Challenge.World.{service_error, World, lift, find_session}
use job_apply_pro.Challenge.Steps.{Browser, Draws, get, timed, is_over, with_timer}
use job_apply_pro.Challenge.Service.{
  completed_at, shows, complete, assessment_passed, finish, hand_in,
}
use job_apply_pro.Challenge.Inversion.{
  Returns, >>=-inv, raise_when-inv, get-inv, with_timer-inv, lift-inv, >>-inv, saved-inv,
}

-- What the completion asks of a session, of the browser's page and of the click on it.
pub record IsReviewed (browser : Browser) (command : ChallengeCompletionCommand)
    (s : ChallengeSessionSnapshot) : Type 0 where
  pub reviewed : s.status ≡ review_required
  pub phrase : command.confirmation_phrase ≡ "COMPLETE CHALLENGE"
  pub fingerprint : s.review_fingerprint ≡ some command.review_fingerprint
  pub page : BrowserObservation
  pub observed : browser.observe s.browser_session_id ≡ ok (some page)
  pub unchanged : page.page_fingerprint ≡ command.review_fingerprint
  pub result : BrowserActionResult
  pub clicked :
      browser.execute_action s.browser_session_id (completion_action s.detection.kind) ≡ ok result
  pub verified : result.verified ≡ true
  pub at_end : result.observation.page_type ≡ "CHALLENGE_COMPLETE"

finish-inv :
    (browser : Browser) (d : Draws) (id : String) (snapshot : ChallengeSessionSnapshot)
    (result : BrowserActionResult) (w : World) (s : ChallengeSessionSnapshot) (v : World)
    → Returns (finish browser d id snapshot result) w s v
    → (s ≡ completed_at d.now snapshot)
      × (find_session snapshot.id v.sessions ≡ some (completed_at d.now snapshot))
unfolding finish
finish-inv browser d id snapshot result w s v h =
    let (w₁, moved, h₁) = >>-inv (assessment_passed browser d snapshot) _ w h in
    saved-inv d id "COMPLETED" (of_page result.observation.page_fingerprint)
      (completed_at d.now snapshot) w₁ s v h₁

shows-inv :
    (fingerprint : String) (o : Option BrowserObservation)
    → not (shows fingerprint o) ≡ false
    → (page : BrowserObservation) × (o ≡ some page) × (page.page_fingerprint ≡ fingerprint)
shows-inv fingerprint none h = cc
shows-inv fingerprint (some page) h = (page, refl, ground arith)

hand_in-inv :
    (browser : Browser) (d : Draws) (id : String) (command : ChallengeCompletionCommand)
    (snapshot : ChallengeSessionSnapshot) (w : World) (s : ChallengeSessionSnapshot) (v : World)
    → Returns (hand_in browser d id command snapshot) w s v
    → IsReviewed browser command snapshot
      × (s ≡ completed_at d.now snapshot)
      × (find_session snapshot.id v.sessions ≡ some (completed_at d.now snapshot))
unfolding hand_in
hand_in-inv browser d id command snapshot w s v h =
    let (review, h₃) =
      raise_when-inv (not (snapshot.status == review_required)) service_error _ w h in
    let (phrase, h₄) =
      raise_when-inv (not (command.confirmation_phrase == "COMPLETE CHALLENGE")) service_error _ w
        h₃ in
    let (fingerprint, h₅) =
      raise_when-inv (not (some command.review_fingerprint == snapshot.review_fingerprint))
        service_error _ w h₄ in
    let (current, w₃, looked, h₆) =
      >>=-inv (lift (browser.observe snapshot.browser_session_id)) _ w h₅ in
    let (unchanged, h₇) =
      raise_when-inv (not (shows command.review_fingerprint current)) service_error _ w₃ h₆ in
    let (result, w₄, clicked, h₈) =
      >>=-inv
        (lift (
          browser.execute_action snapshot.browser_session_id
            (completion_action snapshot.detection.kind)))
        _ w₃ h₇ in
    let (verified, h₉) =
      raise_when-inv
        (not result.verified || not (result.observation.page_type == "CHALLENGE_COMPLETE"))
        service_error _ w₄ h₈ in
    let (page, shown, same) = shows-inv command.review_fingerprint current unchanged in
    let (returned, kept) = finish-inv browser d id snapshot result w₄ s v h₉ in
    (
      record {
        reviewed = ground arith;
        phrase = ground arith;
        fingerprint = ground arith;
        page = page;
        observed =
            (lift-inv (browser.observe snapshot.browser_session_id) w looked).0 ∙ ap ok shown;
        unchanged = same;
        result = result;
        clicked =
            (lift-inv
              (browser.execute_action snapshot.browser_session_id
                (completion_action snapshot.detection.kind))
              w₃ clicked).0;
        verified = ground arith;
        at_end = ground arith;
      },
      returned,
      kept,
    )

-- A challenge is completed only from a stored session under review, in its time, with the phrase and
-- the fingerprint of the review, on a page that still has that fingerprint, and after a verified
-- click led to the closing page; what is returned and stored is that session, completed.
pub complete-IsReviewed :
    (browser : Browser) (d : Draws) (id : String) (command : ChallengeCompletionCommand) (w : World)
    (s : ChallengeSessionSnapshot) (v : World)
    → Returns (complete browser d id command) w s v
    → (found : ChallengeSessionSnapshot) × (find_session id w.sessions ≡ some found)
      × (is_over d.now found ≡ false)
      × IsReviewed browser command (timed d.now found)
      × (s ≡ completed_at d.now (timed d.now found))
      × (find_session found.id v.sessions ≡ some (completed_at d.now (timed d.now found)))
unfolding complete
complete-IsReviewed browser d id command w s v h =
    let (found, w₁, got, h₁) = >>=-inv (get id) _ w h in
    let (stored, e₁) = get-inv id w got in
    let (snapshot, w₂, running, h₂) = >>=-inv (with_timer d found) _ w₁ h₁ in
    let (in_time, made, e₂) = with_timer-inv d found w₁ snapshot w₂ running in
    let (reviewed, at_last, kept) = hand_in-inv browser d id command snapshot w₂ s v h₂ in
    (
      found,
      stored,
      in_time,
      subst (λ x. IsReviewed browser command x) made reviewed,
      at_last ∙ ap (completed_at d.now) made,
      subst (λ x. find_session x.id v.sessions ≡ some (completed_at d.now x)) made kept,
    )
