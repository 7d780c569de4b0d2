-- ===== src/Challenge/Timer.antt =====
-- The timer of a session, and what happens to a session whose time is over: `_with_timer` and
-- `complete` of backend/src/job_apply_pro/services/challenges.py.
use job_apply_pro.Challenge.Service.{answer}
use job_apply_pro.Challenge.Service.{complete}
use job_apply_pro.Base.{
  ◌==◌, option_eq, nat_eq, string_eq, any, Outcome, err, ℕ, ◌+◌, ◌-◌, ◌<◌, String, ◌≡◌, refl, false,
  ◌&&◌, ◌||◌, some, [], ◌∷◌, ◌++◌, ap, ◌∙◌, true, arith,
}
use job_apply_pro.Challenge.Session.{
  kind_eq, status_eq, ChallengeSessionSnapshot, no_details, ChallengeEvent, ChallengeAnswerCommand,
  ChallengeCompletionCommand,
}
use job_apply_pro.Challenge.World.{
  ChallengeError, service_error, World, put_session, save, next_event_sequence, add_event,
  find_session,
}
use job_apply_pro.Challenge.Steps.{
  Draws, record_event, expired_at, is_over, expire, with_timer, Browser, get, is_active_status,
  active, remaining_of,
}
use job_apply_pro.Challenge.Inversion.{
  Returns, with_timer-inv, find_session-put_session, with_timer-over,
}

not_over-left :
    (now limit : ℕ) (s : ChallengeSessionSnapshot)
    → s.time_limit_seconds ≡ some limit
    → is_over now s ≡ false
    → 0 < limit - (now - s.created_at)
unfolding is_over
not_over-left now limit s limited running = ground arith

remaining-limited :
    (now limit : ℕ) (s : ChallengeSessionSnapshot)
    → s.time_limit_seconds ≡ some limit
    → remaining_of now s ≡ some (limit - (now - s.created_at))
remaining-limited now limit s limited = rw limited refl

-- A session with a limit passes its timer only before its time is over, and then unchanged but for
-- its two clocks, which add up to the limit, with something remaining; the world is as it was.
pub with_timer-adds_up :
    (d : Draws) (s s' : ChallengeSessionSnapshot) (w v : World) (limit : ℕ)
    → s.time_limit_seconds ≡ some limit
    → Returns (with_timer d s) w s' v
    → (d.now < s.created_at + limit)
      × (r : ℕ) × (s'.remaining_seconds ≡ some r)
      × (0 < r)
      × (s'.elapsed_seconds + r ≡ limit)
      × (s'.status ≡ s.status)
      × (s' ≡ record s { elapsed_seconds = d.now - s.created_at; remaining_seconds = some r })
      × (v ≡ w)
with_timer-adds_up d s s' w v limit limited h =
    let (running, made, same) = with_timer-inv d s w s' v h in
    let left = not_over-left d.now limit s limited running in
    (
      omega arith,
      limit - (d.now - s.created_at),
      ap (λ x. x.remaining_seconds) made ∙ remaining-limited d.now limit s limited,
      left,
      rw made (omega arith),
      ap (λ x. x.status) made,
      made
          ∙ ap (λ r. record s { elapsed_seconds = d.now - s.created_at; remaining_seconds = r })
              (remaining-limited d.now limit s limited),
      same,
    )

-- The event that records the end of a session's time.
abbrev pub expiry_event : Draws → String → World → ChallengeEvent
expiry_event d id w = record {
  id = d.event_id;
  session_id = id;
  sequence = next_event_sequence id w;
  event_type = "EXPIRED";
  details = no_details;
  occurred_at = d.now;
}

-- The world after a session's time was found to be over.
abbrev pub after_expiry : Draws → ChallengeSessionSnapshot → World → World
after_expiry d s w = record w {
  sessions = put_session (expired_at d.now s) w.sessions;
  session_events = w.session_events ++ expiry_event d s.id w ∷ [];
}

-- The identifier is new, and the next number of the session's log is free.
abbrev pub IsFreeEvent : Draws → String → World → Type 0
IsFreeEvent d id w =
    any (λ x. d.event_id == x.id || (id == x.session_id && next_event_sequence id w == x.sequence))
      w.session_events
    ≡ false

expire-ok :
    {A : Type 0} (d : Draws) (s : ChallengeSessionSnapshot) (w : World)
    → IsFreeEvent d s.id w
    → ◌≡◌ {A = Outcome ChallengeError A × World}
        (expire d s w)
        (err service_error, after_expiry d s w)
unfolding save record_event add_event next_event_sequence
expire-ok d s w free = rw free refl

-- A session of any status, a completed one included, whose time is over and that is handed in again
-- is stored as expired: the timer is read before the status.
pub complete-expires :
    (browser : Browser) (d : Draws) (id : String) (command : ChallengeCompletionCommand) (w : World)
    (s : ChallengeSessionSnapshot)
    → find_session id w.sessions ≡ some s
    → is_over d.now s ≡ true
    → IsFreeEvent d s.id w
    → (complete browser d id command w ≡ (err service_error, after_expiry d s w))
      × (find_session s.id (after_expiry d s w).sessions ≡ some (expired_at d.now s))
unfolding complete get
complete-expires browser d id command w s stored over free = (
  rw stored (rw (with_timer-over d s w over) (rw (expire-ok d s w free) refl)),
  find_session-put_session (expired_at d.now s) w.sessions,
)

-- What an active session's answer meets when the time is over: it is refused and the session is
-- stored as expired.
pub answer-expires :
    (strip casefold : String → String) (browser : Browser) (d : Draws) (id : String)
    (command : ChallengeAnswerCommand) (w : World) (s : ChallengeSessionSnapshot)
    → find_session id w.sessions ≡ some s
    → is_active_status s.status ≡ true
    → is_over d.now s ≡ true
    → IsFreeEvent d s.id w
    → answer strip casefold browser d id command w ≡ (err service_error, after_expiry d s w)
unfolding answer active get
answer-expires strip casefold browser d id command w s stored running over free =
    rw stored (rw running (rw (with_timer-over d s w over) (rw (expire-ok d s w free) refl)))
