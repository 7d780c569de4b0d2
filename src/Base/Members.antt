-- ===== src/Base/Members.antt =====
-- Membership in a list, as the tests and filters of the source see it.
use mathlib.Core.Path.{◌≡◌, refl, ap, sym, ◌∙◌, subst}
use mathlib.Core.Logic.{◌⊎◌, inl, inr}
use mathlib.Core.Bool.{Bool, true}
use mathlib.Core.List.{List, [], ◌∷◌, ◌++◌, reverse, reverse-cons, Memᴰ}
use native.Mathlib.Omega.{arith}
use job_apply_pro.Base.Equality.{Bool-cases, if◌then◌else◌}
use mathlib.Core.Option.{some}
use job_apply_pro.Base.Lists.{any, all, find, keep}

pub Mem-cons : {A : Type 0} {a x : A} {xs : List A} → Memᴰ a (x ∷ xs) → (a ≡ x) ⊎ Memᴰ a xs
Mem-cons (Memᴰ.head e) = inl e
Mem-cons (Memᴰ.tail m) = inr m

-- What passes a filter was in the list, and passed the test.
pub keep-Mem :
    {A : Type 0} (p : A → Bool) (xs : List A) (a : A)
    → Memᴰ a (keep p xs)
    → Memᴰ a xs × (p a ≡ true)
keep-Mem p [] a m = elim m [ ]
keep-Mem p (x ∷ xs) a m = elim (Bool-cases (p x)) [
  | inl passes ↦
      elim (Mem-cons (subst (λ b. Memᴰ a (if b then x ∷ keep p xs else keep p xs)) passes m)) [
        | inl e ↦ (Memᴰ.head e, ap p e ∙ passes)
        | inr among ↦ let (old, passed) = keep-Mem p xs a among in (Memᴰ.tail old, passed)
      ]
  | inr fails ↦
      let (old, passed) =
        keep-Mem p xs a (subst (λ b. Memᴰ a (if b then x ∷ keep p xs else keep p xs)) fails m) in
      (Memᴰ.tail old, passed)
]

pub keep-has :
    {A : Type 0} (p : A → Bool) (xs : List A) (a : A) → Memᴰ a xs → p a ≡ true → Memᴰ a (keep p xs)
keep-has p [] a m h = elim m [ ]
keep-has p (x ∷ xs) a (Memᴰ.head e) h = rw (ap p (sym e) ∙ h) (Memᴰ.head e)
keep-has p (x ∷ xs) a (Memᴰ.tail m) h =
    let rest = keep-has p xs a m h in
    elim (Bool-cases (p x)) [ inl passes ↦ rw passes (Memᴰ.tail rest) | inr fails ↦ rw fails rest ]

pub any-Mem :
    {A : Type 0} (p : A → Bool) (xs : List A) → any p xs ≡ true → (a : A) × Memᴰ a xs × (p a ≡ true)
any-Mem p [] h = absurd (ground arith)
any-Mem p (x ∷ xs) h = elim (Bool-cases (p x)) [
  | inl passes ↦ (x, Memᴰ.head refl, passes)
  | inr other ↦ let (a, m, e) = any-Mem p xs (ground arith) in (a, Memᴰ.tail m, e)
]

pub any-has :
    {A : Type 0} (p : A → Bool) (xs : List A) (a : A) → Memᴰ a xs → p a ≡ true → any p xs ≡ true
any-has p [] a m h = elim m [ ]
any-has p (x ∷ xs) a (Memᴰ.head e) h = let here : p x ≡ true = ap p (sym e) ∙ h in ground arith
any-has p (x ∷ xs) a (Memᴰ.tail m) h = let later = any-has p xs a m h in ground arith

pub all-Mem :
    {A : Type 0} (p : A → Bool) (xs : List A) (a : A) → all p xs ≡ true → Memᴰ a xs → p a ≡ true
all-Mem p [] a h m = elim m [ ]
all-Mem p (x ∷ xs) a h (Memᴰ.head e) = rw e (ground arith)
all-Mem p (x ∷ xs) a h (Memᴰ.tail m) = all-Mem p xs a (ground arith) m

pub find-Mem : {A : Type 0} (p : A → Bool) (xs : List A) (a : A) → find p xs ≡ some a → Memᴰ a xs
find-Mem p [] a h = cc
find-Mem p (x ∷ xs) a h = elim (Bool-cases (p x)) [
  | inl found ↦
      Memᴰ.head (some_path (sym (subst (λ b. (if b then some x else find p xs) ≡ some a) found h)))
  | inr other ↦
      Memᴰ.tail (find-Mem p xs a (subst (λ b. (if b then some x else find p xs) ≡ some a) other h))
]
  where
    some_path : {A : Type 0} {x y : A} → some x ≡ some y → x ≡ y
    some_path e = cc

pub find-holds : {A : Type 0} (p : A → Bool) (xs : List A) (a : A) → find p xs ≡ some a → p a ≡ true
find-holds p [] a h = cc
find-holds p (x ∷ xs) a h = elim (Bool-cases (p x)) [
  | inl found ↦
      let same : some x ≡ some a =
        subst (λ b. (if b then some x else find p xs) ≡ some a) found h in
      subst (λ y. p y ≡ true) (some_path same) found
  | inr other ↦ find-holds p xs a (subst (λ b. (if b then some x else find p xs) ≡ some a) other h)
]
  where
    some_path : {A : Type 0} {x y : A} → some x ≡ some y → x ≡ y
    some_path e = cc

Mem-before : {A : Type 0} {a : A} (xs ys : List A) → Memᴰ a xs → Memᴰ a (xs ++ ys)
Mem-before [] ys m = elim m [ ]
Mem-before (x ∷ xs) ys (Memᴰ.head e) = Memᴰ.head e
Mem-before (x ∷ xs) ys (Memᴰ.tail m) = Memᴰ.tail (Mem-before xs ys m)

Mem-after : {A : Type 0} {a : A} (xs ys : List A) → Memᴰ a ys → Memᴰ a (xs ++ ys)
Mem-after [] ys m = m
Mem-after (x ∷ xs) ys m = Memᴰ.tail (Mem-after xs ys m)

pub Mem-reverse : {A : Type 0} {a : A} (xs : List A) → Memᴰ a xs → Memᴰ a (reverse xs)
Mem-reverse [] m = elim m [ ]
Mem-reverse {A} {a} (x ∷ xs) (Memᴰ.head e) =
    subst (λ l. Memᴰ a l) (sym (reverse-cons x xs)) (Mem-after (reverse xs) (x ∷ []) (Memᴰ.head e))
Mem-reverse {A} {a} (x ∷ xs) (Memᴰ.tail m) =
    subst (λ l. Memᴰ a l) (sym (reverse-cons x xs))
      (Mem-before (reverse xs) (x ∷ []) (Mem-reverse xs m))
