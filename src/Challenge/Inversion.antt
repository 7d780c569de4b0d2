-- ===== src/Challenge/Inversion.antt =====
-- What a chain of actions that returned says of its parts, and what a session is after it is saved.
use job_apply_pro.Base.{
  ==_refl, option_eq, nat_eq, string_eq, Outcome, ok, err, String, ◌≡◌, refl, sym, ap, ◌∙◌, Bool,
  true, false, Option, none, some, List, [], ◌∷◌, ◌++◌, arith, Bool-cases, inl, inr,
}
use job_apply_pro.Challenge.Session.{
  kind_eq, status_eq, ChallengeSessionSnapshot, ChallengeEvent, no_details, EventDetails,
}
use job_apply_pro.Challenge.World.{
  ◌>>=◌, ◌>>◌, ChallengeError, not_found, World, Act, continue, lift, raise_when, require,
  put_session, find_session, add_event, service_error, save, return, next_event_sequence,
}
use job_apply_pro.Challenge.Steps.{
  Draws, get, timed, is_over, with_timer, record_event, expired_at, expire,
}

-- The action returns this value in this world and leaves that one.
abbrev pub Returns : {A : Type 0} → Act A → World → A → World → Type 0
Returns {A} m w a v = ◌≡◌ {A = Outcome ChallengeError A × World} (m w) (ok a, v)

continue-inv :
    {A B : Type 0} (r : Outcome ChallengeError A × World) (next : A → Act B) (b : B) (v : World)
    → ◌≡◌ {A = Outcome ChallengeError B × World} (continue r next) (ok b, v)
    → (a : A) × (u : World) × (◌≡◌ {A = Outcome ChallengeError A × World} r (ok a, u))
      × Returns (next a) u b v
continue-inv (ok a, u) next b v h = (a, u, refl, h)
continue-inv (err e, u) next b v h = cc

-- A chain that returned: its first action returned, and so did the rest in the world it left.
pub >>=-inv :
    {A B : Type 0} (m : Act A) (next : A → Act B) (w : World) {b : B} {v : World}
    → Returns (m >>= next) w b v
    → (a : A) × (u : World) × Returns m w a u × Returns (next a) u b v
>>=-inv m next w {b} {v} done = continue-inv (m w) next b v done

pub >>-inv :
    {B : Type 0} (m : Act (Unit {0})) (next : Act B) (w : World) {b : B} {v : World}
    → Returns (m >> next) w b v
    → (u : World) × Returns m w tt u × Returns next u b v
>>-inv m next w {b} {v} done =
    let (x, u, first, rest) = continue-inv (m w) (λ _. next) b v done in (u, first, rest)

pub lift-inv :
    {A : Type 0} (m : Outcome ChallengeError A) (w : World) {a : A} {v : World}
    → Returns (lift m) w a v
    → (m ≡ ok a) × (v ≡ w)
lift-inv m w h = (ap (λ r. r.0) h, sym (ap (λ r. r.1) h))

pub require-inv :
    {A : Type 0} (o : Option A) (e : ChallengeError) (w : World) {a : A} {v : World}
    → Returns (require o e) w a v
    → (o ≡ some a) × (v ≡ w)
require-inv none e w h = (cc, cc)
require-inv (some a) e w h = (cc, cc)

pub raise_when-inv :
    {A : Type 0} (b : Bool) (e : ChallengeError) (next : Act A) (w : World) {a : A} {v : World}
    → Returns (raise_when b e >> next) w a v
    → (b ≡ false) × Returns next w a v
raise_when-inv true e next w h = (cc, cc)
raise_when-inv false e next w h = (refl, h)

pub get-inv :
    (id : String) (w : World) {s : ChallengeSessionSnapshot} {v : World}
    → Returns (get id) w s v
    → (find_session id w.sessions ≡ some s) × (v ≡ w)
unfolding get
get-inv id w h = require-inv (find_session id w.sessions) not_found w h

-- A saved session is the one that is found under its identifier.
pub find_session-put_session :
    (s : ChallengeSessionSnapshot) (rows : List ChallengeSessionSnapshot)
    → find_session s.id (put_session s rows) ≡ some s
unfolding find_session put_session
find_session-put_session s [] = rw (==_refl s.id) refl
find_session-put_session s (t ∷ rest) =
    ground (arith, find_session-put_session s rest, ==_refl s.id)

-- A session that is found bears the identifier it was looked for under.
pub find_session-id :
    (id : String) (rows : List ChallengeSessionSnapshot) (s : ChallengeSessionSnapshot)
    → find_session id rows ≡ some s
    → s.id ≡ id
unfolding find_session
find_session-id id [] s h = cc
find_session-id id (t ∷ rest) s h = ground (arith, find_session-id id rest s)

pub add_event-inv :
    (e : ChallengeEvent) (w : World) {v : World}
    → Returns (add_event e) w tt v
    → v ≡ record w { session_events = w.session_events ++ e ∷ [] }
unfolding add_event
add_event-inv e w h = ground arith

expire-raises :
    {A : Type 0} (d : Draws) (s : ChallengeSessionSnapshot) (w : World) (a : A) (v : World)
    → ¬ Returns (expire d s) w a v
expire-raises d s w a v h =
    let (x, u, saved, rest) = >>=-inv (save (expired_at d.now s)) _ w h in
    let (y, z, logged, last) = >>=-inv (record_event d s.id "EXPIRED" no_details) _ u rest in
    let raised = (lift-inv (err service_error) z last).0 in cc

pub with_timer-over :
    (d : Draws) (s : ChallengeSessionSnapshot) (w : World)
    → is_over d.now s ≡ true
    → with_timer d s w ≡ expire d s w
unfolding with_timer
with_timer-over d s w over = rw over refl

pub with_timer-running :
    (d : Draws) (s : ChallengeSessionSnapshot) (w : World)
    → is_over d.now s ≡ false
    → Returns (with_timer d s) w (timed d.now s) w
unfolding with_timer
with_timer-running d s w running = rw running refl

pub with_timer-inv :
    (d : Draws) (s : ChallengeSessionSnapshot) (w : World) (s' : ChallengeSessionSnapshot)
    (v : World)
    → Returns (with_timer d s) w s' v
    → (is_over d.now s ≡ false) × (s' ≡ timed d.now s) × (v ≡ w)
with_timer-inv d s w s' v h = elim (Bool-cases (is_over d.now s)) [
  | inl over ↦ absurd (expire-raises d s w s' v (sym (with_timer-over d s w over) ∙ h))
  | inr running ↦
      let same : ◌≡◌ {A = Outcome ChallengeError ChallengeSessionSnapshot × World}
          (ok (timed d.now s), w) (ok s', v) =
        sym (with_timer-running d s w running) ∙ h in
      (running, cc, cc)
]

ok-injective :
    (a b : ChallengeSessionSnapshot)
    → ◌≡◌ {A = Outcome ChallengeError ChallengeSessionSnapshot} (ok a) (ok b)
    → a ≡ b
ok-injective a b e = cc

-- A call that ends by saving a session and logging an event returns that session, and stores it.
pub saved-inv :
    (d : Draws) (id event_type : String) (details : EventDetails) (new : ChallengeSessionSnapshot)
    (w : World) (s : ChallengeSessionSnapshot) (v : World)
    → Returns (save new >> (record_event d id event_type details >> return new)) w s v
    → (s ≡ new) × (find_session new.id v.sessions ≡ some new)
unfolding save record_event
saved-inv d id event_type details new w s v h =
    let (w₁, stored, h₁) =
      >>-inv (save new) (record_event d id event_type details >> return new) w h in
    let (w₂, logged, h₂) = >>-inv (record_event d id event_type details) (return new) w₁ h₁ in
    let (returned, same) = lift-inv (ok new) w₂ h₂ in
    let written = add_event-inv (logged_event w₁) w₁ logged in
    let kept : v.sessions ≡ put_session new w.sessions =
      ap (λ u. u.sessions) same
      ∙ (ap (λ u. u.sessions) written ∙ ap (λ r. r.1.sessions) (sym stored)) in
    (ok-injective s new (sym returned), rw kept (find_session-put_session new w.sessions))
  where
    logged_event : World → ChallengeEvent
    logged_event u = record {
      id = d.event_id;
      session_id = id;
      sequence = next_event_sequence id u;
      event_type = event_type;
      details = details;
      occurred_at = d.now;
    }
