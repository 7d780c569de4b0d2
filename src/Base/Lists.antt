-- ===== src/Base/Lists.antt =====
-- Lists measured by the native numbers, and the list functions that the source's comprehensions,
-- `any`, `all` and `max` stand for.
use Prim.Native.Nat.{ℕ, zero, suc, max, ◌+◌, ◌≤◌}
use mathlib.Core.Path.{◌≡◌, refl}
use mathlib.Core.Bool.{Bool, true, false, ◌&&◌, ◌||◌}
use mathlib.Core.Option.{Option, none, some}
use mathlib.Core.List.{List, [], ◌∷◌, ◌++◌}
use native.Mathlib.Omega.{arith}
use job_apply_pro.Base.Equality.{if◌then◌else◌}

module _ {ℓ} {A : Type ℓ} where
  abbrev pub length : List A → ℕ
  length [] = 0
  length (x ∷ xs) = suc (length xs)

  abbrev pub any : (A → Bool) → List A → Bool
  any p [] = false
  any p (x ∷ xs) = p x || any p xs

  abbrev pub all : (A → Bool) → List A → Bool
  all p [] = true
  all p (x ∷ xs) = p x && all p xs

  -- `[x for x in xs if p(x)]`
  abbrev pub keep : (A → Bool) → List A → List A
  keep p [] = []
  keep p (x ∷ xs) = let rest = keep p xs in if p x then x ∷ rest else rest

  -- the first element that passes, as in a `for` loop that returns it
  abbrev pub find : (A → Bool) → List A → Option A
  find p [] = none
  find p (x ∷ xs) = if p x then some x else find p xs

  abbrev pub get_elem? : List A → ℕ → Option A
  get_elem? [] i = none
  get_elem? (x ∷ xs) zero = some x
  get_elem? (x ∷ xs) (suc i) = get_elem? xs i

  -- `xs[-1]`
  abbrev pub last? : List A → Option A
  last? [] = none
  last? (x ∷ []) = some x
  last? (x ∷ y ∷ xs) = last? (y ∷ xs)

  abbrev pub All {κ} : (A → Type κ) → List A → Type κ
  All P [] = Unit
  All P (x ∷ xs) = P x × All P xs

-- `func.max` over a column: nothing for no row.
abbrev pub max? : List ℕ → Option ℕ
max? [] = none
max? (x ∷ xs) = elim (max? xs) [ none ↦ some x | some m ↦ some (max x m) ]

abbrev pub is_some {ℓ} : {A : Type ℓ} → Option A → Bool
is_some none = false
is_some (some _) = true

module _ {ℓ} {A : Type ℓ} where
  pub all-get_elem? :
      (p : A → Bool) (xs : List A) (i : ℕ) (a : A)
      → all p xs ≡ true
      → get_elem? xs i ≡ some a
      → p a ≡ true
  all-get_elem? p [] i a h e = ground arith
  all-get_elem? p (x ∷ xs) zero a h e = ground arith
  all-get_elem? p (x ∷ xs) (suc i) a h e = ground (arith, all-get_elem? p xs i a)

  pub keep-append : (p : A → Bool) (xs ys : List A) → keep p (xs ++ ys) ≡ keep p xs ++ keep p ys
  keep-append p [] ys = refl
  keep-append p (x ∷ xs) ys = ground (arith, keep-append p xs ys)

  pub length-append : (xs ys : List A) → length (xs ++ ys) ≡ length xs + length ys
  length-append [] ys = omega arith
  length-append (x ∷ xs) ys = omega (arith, length-append xs ys)

  pub any-append : (p : A → Bool) (xs ys : List A) → any p (xs ++ ys) ≡ (any p xs || any p ys)
  any-append p [] ys = refl
  any-append p (x ∷ xs) ys = ground (arith, any-append p xs ys)

-- The greatest of the numbers stands last.
pub max?-append_last : (xs : List ℕ) (m : ℕ) → All (λ x. x ≤ m) xs → max? (xs ++ m ∷ []) ≡ some m
max?-append_last [] m h = refl
max?-append_last (x ∷ xs) m h = ground (arith, max?-append_last xs m h.1)
