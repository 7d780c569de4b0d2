-- ===== src/Challenge/Questions.antt =====
-- What the detector makes of a page: `questions` and `detect` of
-- backend/src/job_apply_pro/challenges/detection.py.
use job_apply_pro.Challenge.World.{needs_intervention}
use job_apply_pro.Challenge.Service.{check_answer, answer}
use mathlib.Core.List.{Memᴰ}
use job_apply_pro.Base.{
  option_eq, nat_eq, string_eq, length, ℕ, zero, suc, ◌+◌, String, ◌≡◌, refl, ap, Bool, List, [],
  ◌∷◌, map, false, ◌++◌, ◌==◌, any, err, sym, ◌∙◌, ◌≢◌, ◌||◌, some, arith,
}
use job_apply_pro.Challenge.Session.{
  kind_eq, status_eq, ChallengeQuestion, captcha, multiple_choice, ChallengeDetection,
}
use job_apply_pro.Browser.{control_kind_eq, BrowserObservedControl, BrowserObservation}
use job_apply_pro.Challenge.Detection.{
  passed_over, radio_group, plain_field, reading, questions_from, Reading, appended, seen_after,
  count_after, questions_on, occurs_in, captcha_providers, haystack, page_kind, detect_challenge,
  field_kind,
}

-- The k numbers after n.
abbrev pub numbers_after : ℕ → ℕ → List ℕ
numbers_after n zero = []
numbers_after n (suc k) = (n + 1) ∷ numbers_after (suc n) k

-- The questions bear the numbers after n, in order.
abbrev IsNumberedAfter : ℕ → List ChallengeQuestion → Type 0
IsNumberedAfter n qs = map (λ q. q.position) qs ≡ numbers_after n (length qs)

-- A question that the service would enter without the candidate.
abbrev IsUnattested : ChallengeQuestion → Type 0
IsUnattested q = (q.legal_attestation ≡ false) × (q.signature_required ≡ false)

module _ (strip casefold : String → String) (attests : String → Bool) (fresh : ℕ → String) where
  appended-IsNumberedAfter :
      (controls : List BrowserObservedControl) (n : ℕ) (c : BrowserObservedControl) (r : Reading)
      (qs : List ChallengeQuestion)
      → IsNumberedAfter (count_after strip casefold attests fresh n r) qs
      → IsNumberedAfter n (appended strip casefold attests fresh controls n c r ++ qs)
  appended-IsNumberedAfter controls n c passed_over qs h = h
  appended-IsNumberedAfter controls n c (radio_group group) qs h = ap (λ t. (n + 1) ∷ t) h
  appended-IsNumberedAfter controls n c plain_field qs h = ap (λ t. (n + 1) ∷ t) h

  questions_from-IsNumberedAfter :
      (controls : List BrowserObservedControl) (seen : List String) (n : ℕ)
      (cs : List BrowserObservedControl)
      → IsNumberedAfter n (questions_from strip casefold attests fresh controls seen n cs)
  unfolding questions_from
  questions_from-IsNumberedAfter controls seen n [] = refl
  questions_from-IsNumberedAfter controls seen n (c ∷ rest) =
      appended-IsNumberedAfter controls n c (reading strip casefold attests fresh seen c) _ (
        questions_from-IsNumberedAfter controls
          (seen_after strip casefold attests fresh seen
            (reading strip casefold attests fresh seen c))
          (count_after strip casefold attests fresh n (reading strip casefold attests fresh seen c))
          rest)

  -- The questions of a page are numbered from one on, without a gap.
  pub questions_on-positions :
      (o : BrowserObservation)
      → map (λ q. q.position) (questions_on strip casefold attests fresh o)
        ≡ numbers_after 0 (length (questions_on strip casefold attests fresh o))
  unfolding questions_on
  questions_on-positions o = questions_from-IsNumberedAfter o.controls [] 0 o.controls

  appended-IsUnattested :
      (controls : List BrowserObservedControl) (n : ℕ) (c : BrowserObservedControl) (r : Reading)
      (qs : List ChallengeQuestion) (q : ChallengeQuestion)
      → (Memᴰ q qs → q.kind ≡ multiple_choice → IsUnattested q)
      → Memᴰ q (appended strip casefold attests fresh controls n c r ++ qs)
      → q.kind ≡ multiple_choice
      → IsUnattested q
  appended-IsUnattested controls n c passed_over qs q ih m choice = ih m choice
  appended-IsUnattested controls n c (radio_group group) qs q ih (Memᴰ.head e) choice =
      (ap (λ x. x.legal_attestation) e, ap (λ x. x.signature_required) e)
  appended-IsUnattested controls n c (radio_group group) qs q ih (Memᴰ.tail m) choice = ih m choice
  appended-IsUnattested controls n c plain_field qs q ih (Memᴰ.head e) choice =
      absurd (field_kind-open c (sym (ap (λ x. x.kind) e) ∙ choice))
    where
      field_kind-open :
          (c : BrowserObservedControl) → field_kind strip casefold attests fresh c ≢ multiple_choice
      field_kind-open c h = ground arith
  appended-IsUnattested controls n c plain_field qs q ih (Memᴰ.tail m) choice = ih m choice

  questions_from-IsUnattested :
      (controls : List BrowserObservedControl) (seen : List String) (n : ℕ)
      (cs : List BrowserObservedControl) (q : ChallengeQuestion)
      → Memᴰ q (questions_from strip casefold attests fresh controls seen n cs)
      → q.kind ≡ multiple_choice
      → IsUnattested q
  unfolding questions_from
  questions_from-IsUnattested controls seen n [] q m choice = elim m [ ]
  questions_from-IsUnattested controls seen n (c ∷ rest) q m choice =
      appended-IsUnattested controls n c (reading strip casefold attests fresh seen c) _ q
        (questions_from-IsUnattested controls
          (seen_after strip casefold attests fresh seen
            (reading strip casefold attests fresh seen c))
          (count_after strip casefold attests fresh n (reading strip casefold attests fresh seen c))
          rest q)
        m choice

  -- A group of radio buttons is never taken for a legal attestation or a signature, whatever its
  -- labels and its controls say, so no answer to its question asks for the candidate.
  pub questions_on-choices :
      (o : BrowserObservation) (q : ChallengeQuestion) (answer : String)
      → Memᴰ q (questions_on strip casefold attests fresh o)
      → q.kind ≡ multiple_choice
      → (q.legal_attestation ≡ false)
        × (q.signature_required ≡ false)
        × (check_answer q answer ≢ err needs_intervention)
  unfolding questions_on check_answer
  questions_on-choices o q answer m choice =
      let (legal, signature) = questions_from-IsUnattested o.controls [] 0 o.controls q m choice in
      (legal, signature, unattested-passes q answer legal signature)
    where
      unattested-passes :
          (q : ChallengeQuestion) (answer : String)
          → q.legal_attestation ≡ false
          → q.signature_required ≡ false
          → check_answer q answer ≢ err needs_intervention
      unattested-passes q answer legal signature = ground arith

module _ (casefold upper : String → String) (now : ℕ) where
  -- A page on which a challenge is found is taken for a captcha exactly if its text names a captcha or
  -- one of the providers, whatever its page type says.
  pub detect_challenge-captcha :
      (o : BrowserObservation) (x : ChallengeDetection)
      → detect_challenge casefold upper now o ≡ some x
      → (x.kind == captcha) ≡ (
          occurs_in "captcha" (haystack casefold upper now o)
          || any (λ p. occurs_in p.0 (haystack casefold upper now o)) captcha_providers)
  unfolding detect_challenge page_kind kind_eq
  detect_challenge-captcha o x h = ground arith
