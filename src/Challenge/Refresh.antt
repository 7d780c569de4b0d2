-- ===== src/Challenge/Refresh.antt =====
-- What a second look at the page leaves of a review: `refresh` of
-- backend/src/job_apply_pro/services/challenges.py.
use mathlib.Core.Path.{subst}
use job_apply_pro.Base.{
  if◌then◌else◌, ◌==◌, eq_of_==, option_eq, nat_eq, string_eq, ok, String, ◌≡◌, refl, sym, ap, ◌∙◌,
  Bool, true, false, not, ◌&&◌, some, arith,
}
use job_apply_pro.Challenge.Session.{
  kind_eq, ChallengeStatus, in_progress, review_required, status_eq, ChallengeDetection,
  ChallengeSessionSnapshot, of_recovery,
}
use job_apply_pro.Browser.{control_kind_eq, BrowserObservation}
use job_apply_pro.Challenge.World.{service_error, World, return, lift, require, find_session}
use job_apply_pro.Challenge.Steps.{
  Detector, Browser, Draws, get, timed, with_timer, latest_verified_fingerprint,
}
use job_apply_pro.Challenge.Detect.{refreshed, reject, refresh}
use job_apply_pro.Challenge.Latest.{IsLastPage, latest_verified_fingerprint-IsLastPage}
use job_apply_pro.Challenge.Inversion.{
  Returns, >>=-inv, >>-inv, lift-inv, require-inv, get-inv, with_timer-inv, saved-inv,
}

refresh-inv :
    (detector : Detector) (browser : Browser) (d : Draws) (id : String) (w : World)
    (s' : ChallengeSessionSnapshot) (v : World)
    → Returns (refresh detector browser d id) w s' v
    → (s : ChallengeSessionSnapshot) × (o : BrowserObservation) × (x : ChallengeDetection)
      × (find_session id w.sessions ≡ some s)
      × (browser.observe s.browser_session_id ≡ ok (some o))
      × (s' ≡ timed d.now (refreshed detector d o x s))
      × (find_session s'.id v.sessions ≡ some s')
unfolding refresh
refresh-inv detector browser d id w s' v h =
    let (s, w₁, got, h₁) = >>=-inv (get id) _ w h in
    let (stored, e₁) = get-inv id w got in
    let (seen, w₂, looked, h₂) = >>=-inv (lift (browser.observe s.browser_session_id)) _ w₁ h₁ in
    let (o, w₃, present, h₃) = >>=-inv (require seen service_error) _ w₂ h₂ in
    let (x, w₄, known, h₄) = >>=-inv (require (detector.detect o) service_error) _ w₃ h₃ in
    let (w₅, same_kind, h₅) =
      >>-inv (if x.kind == s.detection.kind then return tt else reject detector browser d s x) _ w₄
        h₄ in
    let (new, w₆, running, h₆) = >>=-inv (with_timer d (refreshed detector d o x s)) _ w₅ h₅ in
    let (in_time, made, e₆) = with_timer-inv d (refreshed detector d o x s) w₅ new w₆ running in
    let (returned, kept) =
      saved-inv d id "RECOVERED"
        (of_recovery (not (o.page_fingerprint == latest_verified_fingerprint s)) o.page_fingerprint)
        new w₆ s' v h₆ in
    (
      s,
      o,
      x,
      stored,
      (lift-inv (browser.observe s.browser_session_id) w₁ looked).0
          ∙ ap ok (require-inv seen service_error w₂ present).0,
      returned ∙ made,
      subst (λ y. find_session y.id v.sessions ≡ some y) (sym returned) kept,
    )

kept_review :
    (unchanged : Bool) (status : ChallengeStatus)
    → (if not unchanged && status == review_required then in_progress else status) ≡ review_required
    → (unchanged ≡ true) × (status ≡ review_required)
unfolding status_eq
kept_review true status e = (refl, e)
kept_review false status e = ground arith

-- A session that is still under review after a second look was under review before it. Its page has
-- the fingerprint that stands with the latest of its answers, the first of them if several have that
-- time, or that of the detection if it has no answers or the latest has none. Its answers and the
-- fingerprint of the review are as they were, and this session is stored.
pub refresh-keeps :
    (detector : Detector) (browser : Browser) (d : Draws) (id : String) (w : World)
    (s' : ChallengeSessionSnapshot) (v : World)
    → Returns (refresh detector browser d id) w s' v
    → s'.status ≡ review_required
    → (s : ChallengeSessionSnapshot) × (o : BrowserObservation) × (find_session id w.sessions
        ≡ some s)
      × (s.status ≡ review_required)
      × (browser.observe s.browser_session_id ≡ ok (some o))
      × IsLastPage s o.page_fingerprint
      × (s'.answers ≡ s.answers)
      × (s'.review_fingerprint ≡ s.review_fingerprint)
      × (find_session s'.id v.sessions ≡ some s')
unfolding status_eq
refresh-keeps detector browser d id w s' v h review =
    let (s, o, x, stored, observed, made, kept) = refresh-inv detector browser d id w s' v h in
    let (unchanged, reviewed) =
      kept_review (o.page_fingerprint == latest_verified_fingerprint s) s.status
        (sym (ap (λ y. y.status) made) ∙ review) in
    (
      s,
      o,
      stored,
      reviewed,
      observed,
      subst (λ f. IsLastPage s f)
          (sym (eq_of_== o.page_fingerprint (latest_verified_fingerprint s) unchanged))
          (latest_verified_fingerprint-IsLastPage s),
      ap (λ y. y.answers) made ∙ rw unchanged refl,
      ap (λ y. y.review_fingerprint) made ∙ rw unchanged refl,
      kept,
    )
