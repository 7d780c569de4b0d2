-- ===== src/Challenge/Entered.antt =====
-- What stands behind an answer that was entered: `answer` of
-- backend/src/job_apply_pro/services/challenges.py, from the stored session to the browser's action.
use job_apply_pro.Challenge.Inversion.{
  Returns, >>=-inv, >>-inv, lift-inv, raise_when-inv, get-inv, with_timer-inv,
}
use job_apply_pro.Challenge.World.{
  World, ChallengeError, service_error, validation_error, lift, find_session,
}
use job_apply_pro.Challenge.World.{not_found}
use job_apply_pro.Challenge.Steps.{question_of, Draws, get, timed, is_over, with_timer}
use job_apply_pro.Challenge.Steps.{Browser}
use job_apply_pro.Challenge.Steps.{active}
use job_apply_pro.Challenge.Steps.{is_active_status}
use job_apply_pro.Challenge.Inversion.{Returns}
use mathlib.Core.Path.{subst}
use mathlib.Core.List.{Memᴰ}
use job_apply_pro.Base.{
  arith, ◌==◌, eq_of_==, option_eq, nat_eq, string_eq, ok, String, ◌≡◌, ◌⊎◌, Bool, true, false, not,
  Option, none, some, find, find-Mem, find-holds, Outcome, or_raise, sym,
}
use job_apply_pro.Browser.{BrowserActionResult, control_kind_eq, is_action}
use job_apply_pro.Challenge.Session.{
  kind_eq, status_eq, ChallengeQuestion, ChallengeStatus, in_progress, review_required,
  ChallengeAnswerCommand, ChallengeSessionSnapshot,
}
use job_apply_pro.Challenge.Browser.{answer_action}
use job_apply_pro.Challenge.Service.{check_answer, given_answer, answered, answer}
use job_apply_pro.Challenge.Answers.{enter-inv}
use job_apply_pro.Challenge.Admitted.{IsAdmitted, check_answer-IsAdmitted}

-- What an entered answer was entered for and how: the question, which admits the answer, and the
-- browser's verified action, which puts the answer into this question's control; and the session that
-- has it.
pub record IsEntered (strip casefold : String → String) (browser : Browser) (d : Draws)
    (command : ChallengeAnswerCommand) (s s' : ChallengeSessionSnapshot) : Type 0 where
  pub question : ChallengeQuestion
  pub among : Memᴰ question s.questions
  pub named : question.id ≡ command.question_id
  pub admits : IsAdmitted question (strip command.value)
  pub result : BrowserActionResult
  pub acted :
      browser.execute_action s.browser_session_id
        (answer_action casefold question (strip command.value))
      ≡ ok result
  pub verified : result.verified ≡ true
  pub made :
      s'
      ≡ answered d.now question
          (given_answer d.now command (strip command.value) result question)
          result.observation.page_fingerprint
          (timed d.now s)

active-inv :
    (id : String) (w : World) (s : ChallengeSessionSnapshot) (v : World)
    → Returns (active id) w s v
    → (find_session id w.sessions ≡ some s) × (is_active_status s.status ≡ true)
unfolding active
active-inv id w s v h =
    let (found, w₁, got, h₁) = >>=-inv (get id) _ w h in
    let (running, h₂) =
      raise_when-inv (not (is_active_status found.status)) service_error _ w₁ h₁ in
    let (stored, e₁) = get-inv id w got in
    let same : found ≡ s = ok_path (lift-inv (ok found) w₁ h₂).0 in
    (
      subst (λ x. find_session id w.sessions ≡ some x) same stored,
      subst (λ x. is_active_status x.status ≡ true) same
          (not-not (is_active_status found.status) running),
    )
  where
    ok_path :
        {a b : ChallengeSessionSnapshot}
        → ◌≡◌ {A = Outcome ChallengeError ChallengeSessionSnapshot} (ok a) (ok b)
        → a ≡ b
    ok_path e = cc

    not-not : (b : Bool) → not b ≡ false → b ≡ true
    not-not b e = ground arith

question_of-inv :
    (s : ChallengeSessionSnapshot) (id : String) (q : ChallengeQuestion)
    → question_of s id ≡ ok q
    → Memᴰ q s.questions × (q.id ≡ id)
unfolding question_of
question_of-inv s id q h =
    let found : find (λ x. x.id == id) s.questions ≡ some q =
      or_raise-inv (find (λ x. x.id == id) s.questions) h in
    (
      find-Mem (λ x. x.id == id) s.questions q found,
      eq_of_== q.id id (find-holds (λ x. x.id == id) s.questions q found),
    )
  where
    or_raise-inv : (o : Option ChallengeQuestion) → or_raise o not_found ≡ ok q → o ≡ some q
    or_raise-inv none e = cc
    or_raise-inv (some x) e = cc

-- Whenever an answer is accepted, the session was on record, under way or under review, and in its
-- time; the answer names one of its questions, which is neither a legal attestation nor to be signed,
-- and is not empty where the question is required, within the question's limit and, where the question
-- lists options, one of them; the browser verified the action that enters it; and what is returned and
-- stored is the session with its clocks read and this answer in it.
pub answer-IsEntered :
    (strip casefold : String → String) (browser : Browser) (d : Draws) (id : String)
    (command : ChallengeAnswerCommand) (w : World) (s' : ChallengeSessionSnapshot) (v : World)
    → Returns (answer strip casefold browser d id command) w s' v
    → (s : ChallengeSessionSnapshot) × (find_session id w.sessions ≡ some s)
      × ((s.status ≡ in_progress) ⊎ (s.status ≡ review_required))
      × (is_over d.now s ≡ false)
      × IsEntered strip casefold browser d command s s'
      × (find_session s'.id v.sessions ≡ some s')
unfolding answer is_active_status status_eq
answer-IsEntered strip casefold browser d id command w s' v h =
    let (s, w₁, got, h₁) = >>=-inv (active id) _ w h in
    let (stored, running) = active-inv id w s w₁ got in
    let (t, w₂, timing, h₂) = >>=-inv (with_timer d s) _ w₁ h₁ in
    let (in_time, clocked, e₂) = with_timer-inv d s w₁ t w₂ timing in
    let (q, w₃, asked, h₃) = >>=-inv (lift (question_of t command.question_id)) _ w₂ h₂ in
    let (w₄, checked, h₄) = >>-inv (lift (check_answer q (strip command.value))) _ w₃ h₃ in
    let (sized, h₅) =
      raise_when-inv (not (is_action (answer_action casefold q (strip command.value))))
        validation_error _ w₄ h₄ in
    let (result, acted, verified, returned, kept) =
      enter-inv casefold browser d id command t q (strip command.value) w₄ s' v h₅ in
    let (among, named) =
      question_of-inv t command.question_id q
        (lift-inv (question_of t command.question_id) w₂ asked).0 in
    (
      s,
      stored,
      under_way s.status running,
      in_time,
      record {
        question = q;
        among = subst (λ x. Memᴰ q x.questions) clocked among;
        named = named;
        admits =
            check_answer-IsAdmitted q (strip command.value)
              (lift-inv (check_answer q (strip command.value)) w₃ checked).0;
        result = result;
        acted =
            subst
              (λ x.
                browser.execute_action x.browser_session_id
                  (answer_action casefold q (strip command.value))
                ≡ ok result)
              clocked acted;
        verified = verified;
        made =
            subst
              (λ x.
                s'
                ≡ answered d.now q (given_answer d.now command (strip command.value) result q)
                    result.observation.page_fingerprint x)
              clocked returned;
      },
      subst (λ x. find_session x.id v.sessions ≡ some x) (sym returned) kept,
    )
  where
    under_way :
        (status : ChallengeStatus)
        → is_active_status status ≡ true
        → (status ≡ in_progress) ⊎ (status ≡ review_required)
    under_way status e = ground arith
