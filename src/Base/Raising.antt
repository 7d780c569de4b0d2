-- ===== src/Base/Raising.antt =====
-- A call that may raise: its value, or the error that it raises.
use mathlib.Core.Path.{◌≡◌, refl}
use mathlib.Core.Logic.{◌⊎◌, inl, inr}
use mathlib.Core.Bool.{Bool, true, false}
use mathlib.Core.Option.{Option, none, some}

pub data Outcome (E A : Type 0) : Type 0 where
  ok : A → Outcome E A
  err : E → Outcome E A

infixl 5 ◌>>=◌ ◌>>◌
abbrev pub ◌>>=◌ : {E A B : Type 0} → Outcome E A → (A → Outcome E B) → Outcome E B
err raised >>= next = err raised
ok value >>= next = next value

abbrev pub ◌>>◌ : {E B : Type 0} → Outcome E (Unit {0}) → Outcome E B → Outcome E B
first >> next = first >>= λ _. next

-- `if b: raise e`
abbrev pub raise_if : {E : Type 0} → Bool → E → Outcome E (Unit {0})
raise_if true e = err e
raise_if false e = ok tt

-- `if o is None: raise e`
abbrev pub or_raise : {E A : Type 0} → Option A → E → Outcome E A
or_raise none e = err e
or_raise (some a) e = ok a

-- A chain that returns: its first call returned, and so did the rest on that value.
pub >>=-eq-ok :
    {E A B : Type 0} (call : Outcome E A) (next : A → Outcome E B) {out : B}
    → (call >>= next) ≡ ok out
    → (value : A) × (call ≡ ok value) × (next value ≡ ok out)
>>=-eq-ok (err raised) next done = cc
>>=-eq-ok (ok value) next done = (value, refl, done)

pub Outcome-cases :
    {E A : Type 0} (m : Outcome E A) → ((a : A) × (m ≡ ok a)) ⊎ ((e : E) × (m ≡ err e))
Outcome-cases (ok a) = inl (a, refl)
Outcome-cases (err e) = inr (e, refl)

pub raise_if-inv :
    {E B : Type 0} (b : Bool) (e : E) (k : Outcome E B) (x : B)
    → (raise_if b e >> k) ≡ ok x
    → (b ≡ false) × (k ≡ ok x)
raise_if-inv true e k x h = (cc, cc)
raise_if-inv false e k x h = (refl, h)

-- A test that passes, and a value that is there, leave the rest of the chain.
pub raise_if-passes :
    {E B : Type 0} (b : Bool) (e : E) (k : Outcome E B) → b ≡ false → (raise_if b e >> k) ≡ k
raise_if-passes b e k h = rw h

pub or_raise-passes :
    {E A B : Type 0} (o : Option A) (e : E) (k : A → Outcome E B) (a : A)
    → o ≡ some a
    → (or_raise o e >>= k) ≡ k a
or_raise-passes o e k a h = rw h

pub >>=-passes :
    {E A B : Type 0} (call : Outcome E A) (k : A → Outcome E B) (a : A)
    → call ≡ ok a
    → (call >>= k) ≡ k a
>>=-passes call k a h = rw h
