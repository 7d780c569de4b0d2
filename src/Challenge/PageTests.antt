-- ===== src/Challenge/PageTests.antt =====
-- The detector on small pages, and each of its properties at one of them.
use mathlib.Core.List.{Memᴰ}
use job_apply_pro.Base.{
  option_eq, nat_eq, string_eq, length, err, String, ◌≡◌, refl, ◌≢◌, true, false, none, some, List,
  [], ◌∷◌,
}
use job_apply_pro.Challenge.Session.{
  captcha, kind_eq, interactive, status_eq, multiple_choice, ChallengeDetection, ChallengeQuestion,
}
use job_apply_pro.Browser.{
  radio_group_control, control_kind_eq, BrowserObservedControl, BrowserObservation,
}
use job_apply_pro.Browser.Samples.{text_input}
use job_apply_pro.Challenge.World.{needs_intervention}
use job_apply_pro.Challenge.Service.{check_answer}
use job_apply_pro.Challenge.Detection.{
  occurs_in, detect_challenge, reading, questions_from, questions_on,
}
use job_apply_pro.Challenge.Questions.{questions_on-choices}

abbrev certify : String → BrowserObservedControl
certify choice = record text_input {
  kind = radio_group_control;
  input_type = "radio";
  group_label = "I certify under penalty";
  label = choice;
  field_name = "certify";
  element_id = choice;
  legal_attestation = true;
}

abbrev name_field : BrowserObservedControl
name_field = text_input

abbrev form : BrowserObservation
form = record {
  page_type = "SCREENING";
  page_fingerprint = "fp";
  visible_text = "reCAPTCHA";
  controls = certify "Yes" ∷ certify "No" ∷ name_field ∷ [];
}

abbrev certify_question : ChallengeQuestion
certify_question = record {
  id = "certify";
  position = 1;
  prompt = "I certify under penalty";
  kind = multiple_choice;
  options = "Yes" ∷ "No" ∷ [];
  required = true;
  character_limit = none;
  canonical_field = none;
  legal_attestation = false;
  signature_required = false;
}

abbrev found_questions : List ChallengeQuestion
found_questions = questions_on (λ s. s) (λ s. s) (λ s. true) (λ n. "fresh") form

two_questions : length found_questions ≡ 2
unfolding questions_on questions_from reading string_eq
two_questions = refl

certify_found : Memᴰ certify_question found_questions
unfolding questions_on questions_from reading string_eq
certify_found = Memᴰ.head refl

questions_on-choices_example :
    (certify_question.legal_attestation ≡ false)
    × (certify_question.signature_required ≡ false)
    × (check_answer certify_question "Yes" ≢ err needs_intervention)
questions_on-choices_example =
    questions_on-choices (λ s. s) (λ s. s) (λ s. true) (λ n. "fresh") form certify_question "Yes"
      certify_found refl

abbrev captcha_found : ChallengeDetection
captcha_found = record {
  kind = captcha;
  page_type = "SCREENING";
  provider = none;
  captcha_type = some interactive;
  signatures = "captcha" ∷ [];
  page_fingerprint = "fp";
  detected_at = 7;
}

abbrev captcha_page : BrowserObservation
captcha_page = record form { visible_text = "captcha"; controls = [] }

captcha_detected : detect_challenge (λ s. s) (λ s. s) 7 captcha_page ≡ some captcha_found
unfolding detect_challenge occurs_in string_eq nat_eq
captcha_detected = refl
