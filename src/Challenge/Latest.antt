-- ===== src/Challenge/Latest.antt =====
-- The latest of a session's answers, and the page it was given on: `_latest_verified_fingerprint` of
-- backend/src/job_apply_pro/services/challenges.py.
use mathlib.Core.Path.{subst}
use job_apply_pro.Base.{
  arith, if◌then◌else◌, Bool-cases, ltb, option_eq, nat_eq, string_eq, All, ℕ, ◌≤◌, ◌<◌, String,
  ◌≡◌, refl, sym, ap, ◌⊎◌, inl, inr, Bool, true, false, none, some, List, [], ◌∷◌, ◌++◌,
}
use job_apply_pro.Challenge.Session.{ChallengeAnswer, ChallengeSessionSnapshot}
use job_apply_pro.Challenge.Steps.{latest_answer, latest_verified_fingerprint}

-- The answer stands in the list, behind answers that are all older and before none that is newer.
pub record IsLatest (answers : List ChallengeAnswer) (a : ChallengeAnswer) : Type 0 where
  pub before : List ChallengeAnswer
  pub after : List ChallengeAnswer
  pub placed : answers ≡ before ++ a ∷ after
  pub older : All (λ x. x.answered_at < a.answered_at) before
  pub no_newer : All (λ x. x.answered_at ≤ a.answered_at) after

-- The fingerprint is that of the page behind the latest answer or, without an answer or a page behind
-- it, that of the detection.
abbrev pub IsLastPage : ChallengeSessionSnapshot → String → Type 0
IsLastPage s fingerprint =
    (s.answers ≡ []) × (fingerprint ≡ s.detection.page_fingerprint)
    ⊎ (a : ChallengeAnswer) × IsLatest s.answers a
      × ((a.provenance ≡ some fingerprint)
          ⊎ (a.provenance ≡ none) × (fingerprint ≡ s.detection.page_fingerprint))

All-bound :
    (t u : ℕ) (answers : List ChallengeAnswer)
    → t ≤ u
    → All (λ x. x.answered_at ≤ t) answers
    → All (λ x. x.answered_at ≤ u) answers
All-bound t u [] le h = tt
All-bound t u (x ∷ rest) le (here, others) = (omega arith, All-bound t u rest le others)

All-joined :
    (u : ℕ) (before after : List ChallengeAnswer) (b : ChallengeAnswer)
    → b.answered_at ≤ u
    → All (λ x. x.answered_at < b.answered_at) before
    → All (λ x. x.answered_at ≤ b.answered_at) after
    → All (λ x. x.answered_at ≤ u) (before ++ b ∷ after)
All-joined u [] after b le older no_newer = (le, All-bound b.answered_at u after le no_newer)
All-joined u (x ∷ before) after b le (here, older) no_newer =
    (omega arith, All-joined u before after b le older no_newer)

-- The latest answer of a longer list, where that of the shorter one is known.
with_one :
    (a b : ChallengeAnswer) (rest : List ChallengeAnswer)
    → IsLatest rest b
    → IsLatest (a ∷ rest) (if ltb a.answered_at b.answered_at then b else a)
with_one a b rest it = elim (Bool-cases (ltb a.answered_at b.answered_at)) [
  | inl newer ↦
      subst (λ x. IsLatest (a ∷ rest) (if x then b else a)) (sym newer)
        (record {
          before = a ∷ it.before;
          after = it.after;
          placed = ap (λ l. a ∷ l) it.placed;
          older = (ground arith, it.older);
          no_newer = it.no_newer;
        })
  | inr kept ↦
      subst (λ x. IsLatest (a ∷ rest) (if x then b else a)) (sym kept)
        (record {
          before = [];
          after = rest;
          placed = refl;
          older = tt;
          no_newer =
              subst (λ l. All (λ x. x.answered_at ≤ a.answered_at) l) (sym it.placed)
                (All-joined a.answered_at it.before it.after b (ground arith) it.older it.no_newer);
        })
]

latest_answer-cases :
    (answers : List ChallengeAnswer)
    → (answers ≡ []) × (latest_answer answers ≡ none)
      ⊎ (a : ChallengeAnswer) × (latest_answer answers ≡ some a) × IsLatest answers a
unfolding latest_answer
latest_answer-cases [] = inl (refl, refl)
latest_answer-cases (a ∷ rest) = elim (latest_answer-cases rest) [
  | inl (empty, nothing) ↦ inr (
    a,
    rw nothing refl,
    record { before = []; after = rest; placed = refl; older = tt; no_newer = rw empty tt },
  )
  | inr (b, found, it) ↦ inr (
    (if ltb a.answered_at b.answered_at then b else a),
    rw found (choice b a (ltb a.answered_at b.answered_at)),
    with_one a b rest it,
  )
]
  where
    choice :
        (x y : ChallengeAnswer) (c : Bool)
        → (if c then some x else some y) ≡ some (if c then x else y)
    choice x y true = refl
    choice x y false = refl

no_answer :
    (s : ChallengeSessionSnapshot)
    → latest_answer s.answers ≡ none
    → latest_verified_fingerprint s ≡ s.detection.page_fingerprint
unfolding latest_verified_fingerprint
no_answer s nothing = ground arith

from_page :
    (s : ChallengeSessionSnapshot) (a : ChallengeAnswer)
    → latest_answer s.answers ≡ some a
    → (a.provenance ≡ some (latest_verified_fingerprint s))
      ⊎ (a.provenance ≡ none) × (latest_verified_fingerprint s ≡ s.detection.page_fingerprint)
unfolding latest_verified_fingerprint
from_page s a found = ground arith

pub latest_verified_fingerprint-IsLastPage :
    (s : ChallengeSessionSnapshot) → IsLastPage s (latest_verified_fingerprint s)
latest_verified_fingerprint-IsLastPage s = elim (latest_answer-cases s.answers) [
  | inl (empty, nothing) ↦ inl (empty, no_answer s nothing)
  | inr (a, found, it) ↦ inr (a, it, from_page s a found)
]
