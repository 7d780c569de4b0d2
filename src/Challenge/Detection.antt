-- ===== src/Challenge/Detection.antt =====
-- backend/src/job_apply_pro/challenges/detection.py: what kind of challenge a page shows, and its
-- questions. Python's `strip`, `casefold` and `upper`, and the two regular expressions, are parameters.
use Prim.Native.String.{◌++◌ as text_append}
use job_apply_pro.Base.{
  if◌then◌else◌, ◌==◌, contains, option_eq, nat_eq, string_eq, any, keep, is_some, codes,
  is_nonempty, ℕ, suc, ◌+◌, String, Bool, true, false, not, ◌&&◌, ◌||◌, Option, none, some, List,
  [], ◌∷◌, ◌++◌, map,
}
use job_apply_pro.Challenge.Session.{
  ChallengeKind, captcha, questionnaire, assessment, quiz, kind_eq, CaptchaType, image, audio,
  interactive, status_eq, QuestionKind, text, long_text, select, checkbox, multiple_choice,
  ChallengeDetection, ChallengeQuestion,
}
use job_apply_pro.Browser.{control_kind_eq, BrowserObservedControl, BrowserObservation}
use job_apply_pro.Challenge.Steps.{Detector}

abbrev pub starts_with : List ℕ → List ℕ → Bool
starts_with [] cs = true
starts_with (x ∷ xs) [] = false
starts_with (x ∷ xs) (c ∷ cs) = c == x && starts_with xs cs

abbrev pub is_part : List ℕ → List ℕ → Bool
is_part xs [] = starts_with xs []
is_part xs (c ∷ cs) = starts_with xs (c ∷ cs) || is_part xs cs

-- `part in whole`
unfoldable pub occurs_in : String → String → Bool
occurs_in part whole = is_part (codes part) (codes whole)

-- `" ".join(texts)`
abbrev pub join_words : List String → String
join_words [] = ""
join_words (s ∷ []) = s
join_words (s ∷ t ∷ rest) = text_append s (text_append " " (join_words (t ∷ rest)))

-- `a or b` on texts
abbrev pub or_text : String → String → String
or_text a b = if is_nonempty a then a else b

abbrev pub or_none : String → Option String
or_none a = if is_nonempty a then some a else none

-- `_CAPTCHA_PROVIDERS`, in its order
abbrev pub captcha_providers : List (String × String)
captcha_providers =
    ("recaptcha", "reCAPTCHA")
    ∷ ("hcaptcha", "hCaptcha")
    ∷ ("turnstile", "Cloudflare Turnstile")
    ∷ ("arkose", "Arkose Labs")
    ∷ ("funcaptcha", "Arkose Labs")
    ∷ []

abbrev pub first_provider : List (String × String) → Option String
first_provider [] = none
first_provider (p ∷ rest) = some p.1

-- `signatures or ["captcha"]`
abbrev pub or_captcha : List (String × String) → List String
or_captcha [] = "captcha" ∷ []
or_captcha (p ∷ rest) = map (λ x. x.0) (p ∷ rest)

abbrev pub words_of : BrowserObservedControl → String
words_of c = join_words (c.input_type ∷ c.role ∷ c.group_label ∷ c.label ∷ c.text ∷ [])

module _ (casefold upper : String → String) (now : ℕ) where
  abbrev pub haystack : BrowserObservation → String
  haystack o = casefold (join_words (o.page_type ∷ o.visible_text ∷ map words_of o.controls))

  abbrev pub signs : BrowserObservation → List (String × String)
  signs o = keep (λ p. occurs_in p.0 (haystack o)) captcha_providers

  abbrev pub captcha_type_of : String → CaptchaType
  captcha_type_of whole =
      if occurs_in "audio" whole
      then audio
      else if occurs_in "image" whole
      then image
      else interactive

  unfoldable pub page_kind : String → Option ChallengeKind
  page_kind page_type =
      if occurs_in "ASSESSMENT" page_type
      then some assessment
      else if occurs_in "QUIZ" page_type
      then some quiz
      else if occurs_in "QUESTIONNAIRE" page_type || occurs_in "SCREENING" page_type
      then some questionnaire
      else none

  -- `None` stands for `ChallengeDetectionError`.
  unfoldable pub detect_challenge : BrowserObservation → Option ChallengeDetection
  detect_challenge o =
      if occurs_in "captcha" (haystack o) || is_some (first_provider (signs o))
      then some (record {
        kind = captcha;
        page_type = o.page_type;
        provider = first_provider (signs o);
        captcha_type = some (captcha_type_of (haystack o));
        signatures = or_captcha (signs o);
        page_fingerprint = o.page_fingerprint;
        detected_at = now;
      })
      else elim (page_kind (upper o.page_type)) [
        | none ↦ none
        | some kind ↦ some (record {
          kind = kind;
          page_type = o.page_type;
          provider = none;
          captcha_type = none;
          signatures = upper o.page_type ∷ [];
          page_fingerprint = o.page_fingerprint;
          detected_at = now;
        })
      ]

-- What the loop does with a control.
pub data Reading : Type 0 where
  passed_over : Reading
  radio_group : String → Reading
  plain_field : Reading

module _ (strip casefold : String → String) (attests : String → Bool) (fresh : ℕ → String) where
  abbrev pub prompt_of : BrowserObservedControl → String
  prompt_of c = strip (or_text c.label c.field_name)

  abbrev pub group_of : BrowserObservedControl → String
  group_of c = or_text c.field_name (prompt_of c)

  unfoldable pub reading : List String → BrowserObservedControl → Reading
  reading seen c =
      if not (contains ("input" ∷ "select" ∷ "textarea" ∷ []) c.tag)
        || contains ("hidden" ∷ "submit" ∷ "button" ∷ "file" ∷ []) c.input_type
      then passed_over
      else if not (is_nonempty (prompt_of c))
      then passed_over
      else if not (c.input_type == "radio")
      then plain_field
      else if contains seen (group_of c)
      then passed_over
      else radio_group (group_of c)

  abbrev pub members : List BrowserObservedControl → String → List BrowserObservedControl
  members controls group = keep (λ x. x.input_type == "radio" && x.field_name == group) controls

  abbrev pub group_question :
      List BrowserObservedControl → ℕ → String → BrowserObservedControl → ChallengeQuestion
  group_question controls count group c = record {
    id = group;
    position = count + 1;
    prompt = strip (or_text c.group_label group);
    kind = multiple_choice;
    options = map (λ x. or_text x.label x.field_name) (members controls group);
    required = any (λ x. x.required) (members controls group);
    character_limit = none;
    canonical_field = or_none c.canonical_field;
    legal_attestation = false;
    signature_required = false;
  }

  abbrev pub field_kind : BrowserObservedControl → QuestionKind
  field_kind c =
      if c.tag == "textarea"
      then long_text
      else if c.tag == "select"
      then select
      else if c.input_type == "checkbox"
      then checkbox
      else text

  abbrev pub field_question : ℕ → BrowserObservedControl → ChallengeQuestion
  field_question count c = record {
    id = or_text c.element_id (or_text c.field_name (fresh count));
    position = count + 1;
    prompt = prompt_of c;
    kind = field_kind c;
    options = map (λ x. or_text x.label x.value) c.options;
    required = c.required;
    character_limit = c.character_limit;
    canonical_field = or_none c.canonical_field;
    legal_attestation = c.legal_attestation || attests (casefold (prompt_of c));
    signature_required = occurs_in "signature" (casefold (prompt_of c));
  }

  -- What one round of the loop appends, and the groups and the number of questions after it.
  abbrev pub appended :
      List BrowserObservedControl → ℕ → BrowserObservedControl → Reading → List ChallengeQuestion
  appended controls count c passed_over = []
  appended controls count c (radio_group group) = group_question controls count group c ∷ []
  appended controls count c plain_field = field_question count c ∷ []

  abbrev pub seen_after : List String → Reading → List String
  seen_after seen (radio_group group) = group ∷ seen
  seen_after seen _ = seen

  abbrev pub count_after : ℕ → Reading → ℕ
  count_after count passed_over = count
  count_after count _ = suc count

  -- The loop over the controls, with the groups that were seen and the number of questions so far.
  unfoldable pub questions_from :
      List BrowserObservedControl
      → List String
      → ℕ
      → List BrowserObservedControl
      → List ChallengeQuestion
  questions_from controls seen count [] = []
  questions_from controls seen count (c ∷ rest) =
      appended controls count c (reading seen c)
      ++ questions_from controls (seen_after seen (reading seen c))
          (count_after count (reading seen c)) rest

  unfoldable pub questions_on : BrowserObservation → List ChallengeQuestion
  unfolding questions_from
  questions_on o = questions_from o.controls [] 0 o.controls

-- The detector of the repository, as the service takes it.
abbrev pub challenge_detector :
    (strip casefold upper : String → String)
    → (String → Bool)
    → (ℕ → String)
    → (String → Option ℕ)
    → ℕ
    → Detector
challenge_detector strip casefold upper attests fresh timer now = record {
  detect = detect_challenge casefold upper now;
  questions = questions_on strip casefold attests fresh;
  visible_timer_seconds = λ o. timer o.visible_text;
}
