-- ===== src/Challenge/Admitted.antt =====
-- The answers that a question admits: the checks of `answer` of
-- backend/src/job_apply_pro/services/challenges.py before the browser acts.
use mathlib.Core.List.{Memᴰ}
use job_apply_pro.Base.{
  arith, Bool-cases, ◌==◌, contains, eq_of_==, option_eq, nat_eq, string_eq, ok, char_count,
  is_nonempty, ℕ, ◌≤◌, String, ◌≡◌, refl, ◌⊎◌, inl, inr, Bool, true, false, not, ◌&&◌, Option, none,
  some, List, [], ◌∷◌,
}
use job_apply_pro.Challenge.Session.{kind_eq, status_eq, ChallengeQuestion}
use job_apply_pro.Challenge.Service.{over_limit, is_empty, check_answer}

-- The answer that the candidate gave to the question, with its white space removed, is one that the
-- question admits.
pub record IsAdmitted (q : ChallengeQuestion) (value : String) : Type 0 where
  pub unattested : q.legal_attestation ≡ false
  pub unsigned : q.signature_required ≡ false
  pub filled : (q.required ≡ false) ⊎ (is_nonempty value ≡ true)
  pub within :
      (q.character_limit ≡ none)
      ⊎ (limit : ℕ) × (q.character_limit ≡ some limit) × (char_count value ≤ limit)
  pub offered : (q.options ≡ []) ⊎ Memᴰ value q.options

listed :
    (options : List String) (value : String)
    → (not (is_empty options) && not (contains options value)) ≡ false
    → (options ≡ []) ⊎ Memᴰ value options
listed [] value h = inl refl
listed (o ∷ options) value h = inr (contains-Mem (o ∷ options) (ground arith))
  where
    contains-Mem : (xs : List String) → contains xs value ≡ true → Memᴰ value xs
    contains-Mem [] e = cc
    contains-Mem (x ∷ xs) e = elim (Bool-cases (value == x)) [
      | inl same ↦ Memᴰ.head (eq_of_== value x same)
      | inr other ↦ Memᴰ.tail (contains-Mem xs (ground arith))
    ]

limited :
    (o : Option ℕ) (value : String)
    → over_limit o value ≡ false
    → (o ≡ none) ⊎ (limit : ℕ) × (o ≡ some limit) × (char_count value ≤ limit)
limited none value h = inl refl
limited (some limit) value h = inr (limit, refl, ground arith)

required_filled : (r n : Bool) → (r && not n) ≡ false → (r ≡ false) ⊎ (n ≡ true)
required_filled true n h = inr (ground arith)
required_filled false n h = inl refl

check_answer-inv :
    (q : ChallengeQuestion) (value : String)
    → check_answer q value ≡ ok tt
    → (q.legal_attestation ≡ false)
      × (q.signature_required ≡ false)
      × ((q.required && not (is_nonempty value)) ≡ false)
      × (over_limit q.character_limit value ≡ false)
      × ((not (is_empty q.options) && not (contains q.options value)) ≡ false)
unfolding check_answer
check_answer-inv q value h = (ground arith, ground arith, ground arith, ground arith, ground arith)

pub check_answer-IsAdmitted :
    (q : ChallengeQuestion) (value : String) → check_answer q value ≡ ok tt → IsAdmitted q value
check_answer-IsAdmitted q value h =
    let (unattested, unsigned, filled, within, offered) = check_answer-inv q value h in
    record {
      unattested = unattested;
      unsigned = unsigned;
      filled = required_filled q.required (is_nonempty value) filled;
      within = limited q.character_limit value within;
      offered = listed q.options value offered;
    }
