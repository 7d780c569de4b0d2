-- ===== src/Challenge/Answers.antt =====
-- What an answer leaves, and one that is too long: `answer` of
-- backend/src/job_apply_pro/services/challenges.py.
use mathlib.Core.Path.{subst}
use mathlib.Core.List.{Memᴰ}
use job_apply_pro.Base.{
  ◌==◌, option_eq, nat_eq, string_eq, find, ok, err, char_count, ◌<◌, String, ◌≡◌, refl, ◌⊎◌, inl,
  inr, true, false, ◌||◌, some, arith, any, is_nonempty, Bool, ◌&&◌, List, not, ap, sym, ◌∙◌,
  if◌then◌else◌, any-Mem, all-Mem,
}
use job_apply_pro.Challenge.Session.{
  kind_eq, status_eq, text, long_text, ChallengeQuestion, ChallengeAnswerCommand,
  ChallengeSessionSnapshot, ChallengeAnswer, of_answer, ChallengeStatus, in_progress,
  review_required,
}
use job_apply_pro.Browser.{control_kind_eq, BrowserActionResult, is_action, is_verification}
use job_apply_pro.Challenge.Browser.{answer_action}
use job_apply_pro.Challenge.World.{validation_error, World, find_session, service_error, lift, save}
use job_apply_pro.Challenge.Steps.{
  Browser, Draws, get, is_active_status, active, is_over, question_of, record_event, with_timer,
}
use job_apply_pro.Challenge.Service.{
  check_answer, answer, is_ready, given_answer, answered, enter, answers_with,
}
use job_apply_pro.Challenge.Inversion.{
  with_timer-running, Returns, >>=-inv, raise_when-inv, lift-inv, saved-inv, >>-inv,
}

too_long :
    (casefold : String → String) (q : ChallengeQuestion) (value : String)
    → (q.kind ≡ text) ⊎ (q.kind ≡ long_text)
    → 500 < char_count value
    → is_action (answer_action casefold q value) ≡ false
unfolding is_action answer_action is_verification
too_long casefold q value (inl e) long = rw e (ground arith)
too_long casefold q value (inr e) long = rw e (ground arith)

module _ (strip casefold : String → String) (browser : Browser) (d : Draws) (id : String)
    (command : ChallengeAnswerCommand) (w : World) (s : ChallengeSessionSnapshot)
    (stored : find_session id w.sessions ≡ some s) (running : is_active_status s.status ≡ true)
    (in_time : is_over d.now s ≡ false) (q : ChallengeQuestion)
    (asked : find (λ x. x.id == command.question_id) s.questions ≡ some q) where
  -- An answer of more than 500 characters to a text question fails on the limits of the browser's
  -- verification, also where the question admits it.
  pub answer-long :
      (q.kind ≡ text) ⊎ (q.kind ≡ long_text)
      → check_answer q (strip command.value) ≡ ok tt
      → 500 < char_count (strip command.value)
      → answer strip casefold browser d id command w ≡ (err validation_error, w)
  unfolding answer active get question_of
  answer-long kind admitted long = rw stored (
      rw running (
        rw (with_timer-running d s w in_time)
          (rw asked (rw admitted (rw (too_long casefold q (strip command.value) kind long) refl)))))

-- Where every required question is ready, a required one has a verified answer that is not empty.
is_ready-answer :
    (questions : List ChallengeQuestion) (answers : List ChallengeAnswer) (p : ChallengeQuestion)
    → is_ready questions answers ≡ true
    → Memᴰ p questions
    → p.required ≡ true
    → (a : ChallengeAnswer) × Memᴰ a answers
      × (a.question_id ≡ p.id)
      × (a.verified ≡ true)
      × (is_nonempty a.value ≡ true)
unfolding is_ready
is_ready-answer questions answers p ready member required =
    let (a, m, e) =
      any-Mem (λ a. a.question_id == p.id && (a.verified && is_nonempty a.value)) answers
        (given p.required
          (any (λ a. a.question_id == p.id && (a.verified && is_nonempty a.value)) answers) required
          (all-Mem
            (λ q.
              not q.required
              || any (λ a. a.question_id == q.id && (a.verified && is_nonempty a.value)) answers)
            questions p ready member)) in
    (a, m, ground arith, ground arith, ground arith)
  where
    given : (b c : Bool) → b ≡ true → (not b || c) ≡ true → c ≡ true
    given b c e h = ground arith

not-false : (b : Bool) → not b ≡ false → b ≡ true
not-false b h = ground arith

pub enter-inv :
    (casefold : String → String) (browser : Browser) (d : Draws) (id : String)
    (command : ChallengeAnswerCommand) (s : ChallengeSessionSnapshot) (q : ChallengeQuestion)
    (value : String) (w : World) (s' : ChallengeSessionSnapshot) (v : World)
    → Returns (enter casefold browser d id command s q value) w s' v
    → (result : BrowserActionResult) × (browser.execute_action s.browser_session_id
          (answer_action casefold q value)
        ≡ ok result)
      × (result.verified ≡ true)
      × (s'
          ≡ answered d.now q
              (given_answer d.now command value result q)
              result.observation.page_fingerprint
              s)
      × (find_session s.id v.sessions
          ≡ some (
              answered d.now q
                (given_answer d.now command value result q)
                result.observation.page_fingerprint
                s))
unfolding enter save record_event
enter-inv casefold browser d id command s q value w s' v h =
    let (result, w₁, clicked, h₁) =
      >>=-inv (lift (browser.execute_action s.browser_session_id (answer_action casefold q value)))
        _ w h in
    let (verified, h₂) = raise_when-inv (not result.verified) service_error _ w₁ h₁ in
    let new : ChallengeSessionSnapshot =
      answered d.now q (given_answer d.now command value result q)
        result.observation.page_fingerprint s in
    let (returned, kept) =
      saved-inv d id "ANSWER_VERIFIED" (of_answer q.id command.source) new w₁ s' v h₂ in
    (
      result,
      (lift-inv (browser.execute_action s.browser_session_id (answer_action casefold q value)) w
          clicked).0,
      not-false result.verified verified,
      returned,
      kept,
    )

-- The end of a call to `answer`: what is returned is an answered session, in some world that the
-- timer has left, and it is stored.
answer-inv :
    (strip casefold : String → String) (browser : Browser) (d : Draws) (id : String)
    (command : ChallengeAnswerCommand) (w : World) (s' : ChallengeSessionSnapshot) (v : World)
    → Returns (answer strip casefold browser d id command) w s' v
    → (s : ChallengeSessionSnapshot) × (q : ChallengeQuestion) × (u : World) × Returns
        (enter casefold browser d id command s q (strip command.value))
        u
        s'
        v
unfolding answer
answer-inv strip casefold browser d id command w s' v h =
    let (found, w₁, got, h₁) = >>=-inv (active id) _ w h in
    let (s, w₂, running, h₂) = >>=-inv (with_timer d found) _ w₁ h₁ in
    let (q, w₃, asked, h₃) = >>=-inv (lift (question_of s command.question_id)) _ w₂ h₂ in
    let (w₄, checked, h₄) = >>-inv (lift (check_answer q (strip command.value))) _ w₃ h₃ in
    let (sized, h₅) =
      raise_when-inv (not (is_action (answer_action casefold q (strip command.value))))
        validation_error _ w₄ h₄ in
    (s, q, w₄, h₅)

-- A session that an answer leaves under review has, for every required question, a verified answer
-- that is not empty; and this session is the one that is stored.
pub answer-review :
    (strip casefold : String → String) (browser : Browser) (d : Draws) (id : String)
    (command : ChallengeAnswerCommand) (w : World) (s' : ChallengeSessionSnapshot) (v : World)
    (p : ChallengeQuestion)
    → Returns (answer strip casefold browser d id command) w s' v
    → s'.status ≡ review_required
    → Memᴰ p s'.questions
    → p.required ≡ true
    → (find_session s'.id v.sessions ≡ some s')
      × (a : ChallengeAnswer) × Memᴰ a s'.answers
      × (a.question_id ≡ p.id)
      × (a.verified ≡ true)
      × (is_nonempty a.value ≡ true)
answer-review strip casefold browser d id command w s' v p h review member required =
    let (s, q, u, entered) = answer-inv strip casefold browser d id command w s' v h in
    let (result, clicked, verified, returned, kept) =
      enter-inv casefold browser d id command s q (strip command.value) u s' v entered in
    let a = given_answer d.now command (strip command.value) result q in
    let new : ChallengeSessionSnapshot = answered d.now q a result.observation.page_fingerprint s in
    let ready =
      ready_status (is_ready s.questions (answers_with a s.answers))
        (sym (ap (λ x. x.status) returned) ∙ review) in
    let (b, among, names, checked, filled) =
      is_ready-answer s.questions (answers_with a s.answers) p ready
        (subst (λ x. Memᴰ p x.questions) returned member) required in
    (
      subst (λ x. find_session x.id v.sessions ≡ some x) (sym returned) kept,
      b,
      subst (λ x. Memᴰ b x.answers) (sym returned) among,
      names,
      checked,
      filled,
    )
  where
    ready_status :
        (b : Bool)
        → ◌≡◌ {A = ChallengeStatus} (if b then review_required else in_progress) review_required
        → b ≡ true
    ready_status true e = refl
    ready_status false e = cc
