-- ===== src/Challenge/Tests.antt =====
-- Runs of the challenge service on small worlds, and each property at one of them.
use mathlib.Core.List.{Memᴰ}
use job_apply_pro.Base.{
  ◌==◌, option_eq, nat_eq, string_eq, find, ok, err, is_nonempty, ℕ, ◌+◌, ◌<◌, ◌≡◌, refl, inl, true,
  false, some, [], ◌∷◌, arith, none, ◌⊎◌,
}
use job_apply_pro.Workflow.State.{state_eq}
use job_apply_pro.Workflow.Transitions.{verification_eq}
use job_apply_pro.Challenge.Session.{
  kind_eq, in_progress, review_required, status_eq, user, ChallengeAnswer, ChallengeSessionSnapshot,
  of_answer, of_page,
}
use job_apply_pro.Browser.{control_kind_eq, is_locator, is_action, is_verification}
use job_apply_pro.Challenge.Browser.{answer_action}
use job_apply_pro.Challenge.World.{
  service_error, validation_error, World, put_session, save, find_session, next_event_sequence,
  add_event,
}
use job_apply_pro.Challenge.Steps.{
  get, is_active_status, active, record_event, timed, expired_at, is_over, with_timer, question_of,
}
use job_apply_pro.Challenge.Service.{
  is_ready, given_answer, answered, check_answer, enter, answer, completed_at, assessment_passed,
  finish, hand_in, complete,
}
use job_apply_pro.Challenge.Inversion.{Returns, with_timer-running}
use job_apply_pro.Challenge.Review.{IsReviewed, complete-IsReviewed}
use job_apply_pro.Challenge.Timer.{with_timer-adds_up, after_expiry, complete-expires}
use job_apply_pro.Challenge.Entered.{IsEntered, answer-IsEntered}
use job_apply_pro.Challenge.Answers.{answer-long, answer-review}
use job_apply_pro.Challenge.Samples.{
  page, end_page, why, session, reviewed_session, done_session, captcha_db, world_of, browser_at,
  draws, reply, completion, filler, stored_session,
}

in_time :
    (s : ChallengeSessionSnapshot)
    → s.time_limit_seconds ≡ some 600
    → s.created_at ≡ 100
    → is_over 200 s ≡ false
unfolding is_over
in_time s limited created = ground arith

abbrev handed_in : ChallengeSessionSnapshot
handed_in = completed_at 200 (timed 200 reviewed_session)

abbrev after_completion : World
after_completion = record {
  sessions = handed_in ∷ [];
  session_events =
      record {
        id = "e1";
        session_id = "s1";
        sequence = 1;
        event_type = "COMPLETED";
        details = of_page "fp-end";
        occurred_at = 200;
      }
      ∷ [];
  database = captcha_db;
}

completion_runs :
    Returns
      (complete (browser_at end_page) (draws 200) "s1" completion)
      (world_of reviewed_session)
      handed_in
      after_completion
unfolding complete option_eq hand_in finish assessment_passed get with_timer find_session is_over
    save put_session record_event add_event next_event_sequence status_eq string_eq nat_eq
completion_runs = refl

complete-IsReviewed_example :
    (found : ChallengeSessionSnapshot) × (find_session "s1" (reviewed_session ∷ []) ≡ some found)
    × (is_over 200 found ≡ false)
    × IsReviewed (browser_at end_page) completion (timed 200 found)
    × (handed_in ≡ completed_at 200 (timed 200 found))
    × (find_session found.id (handed_in ∷ []) ≡ some (completed_at 200 (timed 200 found)))
complete-IsReviewed_example =
    complete-IsReviewed (browser_at end_page) (draws 200) "s1" completion
      (world_of reviewed_session) handed_in after_completion completion_runs

with_timer-adds_up_example :
    (200 < 700)
    × (r : ℕ) × (some 500 ≡ some r)
    × (0 < r)
    × (100 + r ≡ 600)
    × (in_progress ≡ in_progress)
    × (timed 200 session ≡ record session { elapsed_seconds = 100; remaining_seconds = some r })
    × (world_of session ≡ world_of session)
with_timer-adds_up_example =
    with_timer-adds_up (draws 200) session (timed 200 session) (world_of session) (world_of session)
      600 refl
      (with_timer-running (draws 200) session (world_of session) (in_time session refl refl))

over :
    (s : ChallengeSessionSnapshot)
    → s.time_limit_seconds ≡ some 600
    → s.created_at ≡ 100
    → is_over 900 s ≡ true
unfolding is_over nat_eq
over s limited created = rw limited (rw created refl)

complete-expires_example :
    (complete (browser_at end_page) (draws 900) "s1" completion (world_of done_session)
      ≡ (err service_error, after_expiry (draws 900) done_session (world_of done_session)))
    × (find_session "s1" (after_expiry (draws 900) done_session (world_of done_session)).sessions
        ≡ some (expired_at 900 done_session))
complete-expires_example =
    complete-expires (browser_at end_page) (draws 900) "s1" completion (world_of done_session)
      done_session (stored_session done_session) (over done_session refl refl) refl

active_session : is_active_status in_progress ≡ true
unfolding is_active_status status_eq
active_session = refl

first_question : find (λ x. x.id == "q1") session.questions ≡ some why
unfolding string_eq
first_question = refl

long_admitted : check_answer why (filler 501) ≡ ok tt
unfolding check_answer
long_admitted = refl

answer-long_example :
    answer
      (λ s. s)
      (λ s. s)
      (browser_at page)
      (draws 200)
      "s1"
      (reply "q1" (filler 501))
      (world_of session)
    ≡ (err validation_error, world_of session)
answer-long_example =
    answer-long (λ s. s) (λ s. s) (browser_at page) (draws 200) "s1" (reply "q1" (filler 501))
      (world_of session) session (stored_session session) active_session (in_time session refl refl)
      why first_question (inl refl) long_admitted (omega arith)

abbrev because : ChallengeSessionSnapshot
because =
    answered 200 why
      (given_answer 200 (reply "q1" "Because") "Because"
        (record {
          action = answer_action (λ s. s) why "Because";
          verified = true;
          observation = page;
          error = none;
        })
        why)
      "fp" (timed 200 session)

abbrev after_answer : World
after_answer = record {
  sessions = because ∷ [];
  session_events =
      record {
        id = "e1";
        session_id = "s1";
        sequence = 1;
        event_type = "ANSWER_VERIFIED";
        details = of_answer "q1" user;
        occurred_at = 200;
      }
      ∷ [];
  database = captcha_db;
}

answer_runs :
    Returns
      (answer (λ s. s) (λ s. s) (browser_at page) (draws 200) "s1" (reply "q1" "Because"))
      (world_of session)
      because
      after_answer
unfolding answer enter active is_active_status get with_timer find_session is_over question_of
    check_answer is_action is_verification is_locator answer_action save put_session record_event
    add_event next_event_sequence status_eq string_eq nat_eq
answer_runs = refl

because_reviewed : because.status ≡ review_required
unfolding is_ready string_eq
because_reviewed = refl

answer-review_example :
    (find_session "s1" (because ∷ []) ≡ some because)
    × (a : ChallengeAnswer) × Memᴰ a because.answers
    × (a.question_id ≡ "q1")
    × (a.verified ≡ true)
    × (is_nonempty a.value ≡ true)
answer-review_example =
    answer-review (λ s. s) (λ s. s) (browser_at page) (draws 200) "s1" (reply "q1" "Because")
      (world_of session) because after_answer why answer_runs because_reviewed (Memᴰ.head refl) refl

answer-IsEntered_example :
    (s : ChallengeSessionSnapshot) × (find_session "s1" (session ∷ []) ≡ some s)
    × ((s.status ≡ in_progress) ⊎ (s.status ≡ review_required))
    × (is_over 200 s ≡ false)
    × IsEntered (λ s. s) (λ s. s) (browser_at page) (draws 200) (reply "q1" "Because") s because
    × (find_session "s1" (because ∷ []) ≡ some because)
answer-IsEntered_example =
    answer-IsEntered (λ s. s) (λ s. s) (browser_at page) (draws 200) "s1" (reply "q1" "Because")
      (world_of session) because after_answer answer_runs
