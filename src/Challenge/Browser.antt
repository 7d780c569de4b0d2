-- ===== src/Challenge/Browser.antt =====
-- The actions that the challenge service asks of the browser: `_answer_action` of
-- backend/src/job_apply_pro/services/challenges.py. `casefold` of Python is a parameter.
use Prim.Native.String.{◌++◌ as text_append}
use job_apply_pro.Base.{
  if◌then◌else◌, ◌==◌, contains, option_eq, nat_eq, string_eq, String, Bool, true, false, Option,
  none, some, [], ◌∷◌,
}
use job_apply_pro.Browser.{
  role_strategy, label_strategy, BrowserActionKind, click, fill, select_option, check, uncheck,
  control_kind_eq, text_visible, value_equals, checked_equals, standard, elevated,
  confirmation_not_required, confirmed, SemanticLocator, BrowserVerification, BrowserAction,
}
use job_apply_pro.Challenge.Session.{
  ChallengeKind, questionnaire, kind_eq, status_eq, QuestionKind, select, checkbox, multiple_choice,
  true_false, ChallengeQuestion,
}

module _ (casefold : String → String) where
  unfoldable pub is_negative : String → Bool
  is_negative value = contains ("false" ∷ "no" ∷ "0" ∷ []) (casefold value)

  abbrev pub label : String → SemanticLocator
  label value = record { strategy = label_strategy; value = value; name = none; exact = true }

  -- An action under the defaults of permission and confirmation.
  abbrev pub plain :
      BrowserActionKind
      → SemanticLocator
      → Option String
      → String
      → BrowserVerification
      → BrowserAction
  plain kind locator value intended verification = record {
    kind = kind;
    locator = locator;
    value = value;
    preconditions = [];
    intended_result = intended;
    verification = verification;
    permission = standard;
    confirmation = confirmation_not_required;
    sensitive_value = false;
  }

  abbrev pub choose_action : ChallengeQuestion → String → BrowserAction
  choose_action q value =
      plain check (label value) none
        (text_append "Select " (text_append value (text_append " for " q.prompt)))
        (record { kind = checked_equals; value = some "true"; locator = some (label value) })

  abbrev pub tick_action : ChallengeQuestion → String → BrowserAction
  tick_action q value =
      plain (if is_negative value then uncheck else check) (label q.prompt) none
        (text_append "Set " q.prompt)
        (record {
          kind = checked_equals;
          value = some (if is_negative value then "false" else "true");
          locator = some (label q.prompt);
        })

  abbrev pub fill_action : BrowserActionKind → ChallengeQuestion → String → BrowserAction
  fill_action kind q value =
      plain kind (label q.prompt) (some value) (text_append "Answer " q.prompt)
        (record { kind = value_equals; value = some value; locator = some (label q.prompt) })

  abbrev pub action_for : QuestionKind → ChallengeQuestion → String → BrowserAction
  action_for multiple_choice q value = choose_action q value
  action_for checkbox q value = tick_action q value
  action_for true_false q value = tick_action q value
  action_for select q value = fill_action select_option q value
  action_for _ q value = fill_action fill q value

  unfoldable pub answer_action : ChallengeQuestion → String → BrowserAction
  answer_action q value = action_for q.kind q value

-- The click that hands a reviewed challenge in.
unfoldable pub completion_action : ChallengeKind → BrowserAction
unfolding kind_eq
completion_action kind = record {
  kind = click;
  locator = record {
    strategy = role_strategy;
    value = "button";
    name = some (if kind == questionnaire then "Submit questionnaire" else "Submit assessment");
    exact = true;
  };
  value = none;
  preconditions = [];
  intended_result = "Complete the reviewed challenge";
  verification = record { kind = text_visible; value = some "Challenge complete"; locator = none };
  permission = elevated;
  confirmation = confirmed;
  sensitive_value = false;
}
