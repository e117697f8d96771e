-- ===== src/Common/Outcomes.antt =====
-- What the results and the errors of a call say, one predicate for each.
use mathlib.Core.Path.{◌≡◌, refl}
use mathlib.Core.Bool.{Bool, true, false}
use mathlib.Core.Option.{Option, none, some}
use audit_mpc_lib.Common.Results.{
  Result, ok, err, Action, Call, pure, fail, fail_if, try, resume, ◌>>=◌, Meets, Ensures, Documents,
}

abbrev pub Outcome : {E A : Type 0} → (E → Type 0) → (A → Type 0) → Result E A → Type 0
Outcome Q P (ok a) = P a
Outcome Q P (err e) = Q e

pub record Yields {W E A : Type 0} (Q : E → Type 0) (P : A → Type 0) (m : Action W E A)
    : Type 0 where
  pub run : (w : W) → Outcome Q P (m w).0

module _ {W E : Type 0} (Q : E → Type 0) where
  pub Yields-pure : {A : Type 0} {P : A → Type 0} (a : A) → P a → Yields {W = W} Q P (pure a)
  Yields-pure a p = record { run = λ w. p }

  pub Yields-fail : {A : Type 0} {P : A → Type 0} (e : E) → Q e → Yields {W = W} Q P (fail e)
  Yields-fail e q = record { run = λ w. q }

  Yields-resume :
      {A B : Type 0} {P : A → Type 0} {S : B → Type 0} (r : Result E A) (w : W)
      (f : A → Action W E B)
      → Outcome Q P r
      → ((a : A) → P a → Yields Q S (f a))
      → Outcome Q S (resume r w f).0
  Yields-resume (ok a) w f h k = (k a h).run w
  Yields-resume (err e) w f h k = h

  pub Yields-bind :
      {A B : Type 0} {P : A → Type 0} {S : B → Type 0} {m : Action W E A} {f : A → Action W E B}
      → Yields Q P m
      → ((a : A) → P a → Yields Q S (f a))
      → Yields Q S (m >>= f)
  Yields-bind {m} {f} hm hf = record { run = λ w. Yields-resume (m w).0 (m w).1 f (hm.run w) hf }

  -- An early return, behind which the test is known to have failed.
  pub Yields-guard :
      {A : Type 0} {P : A → Type 0} {k : Action W E A} (b : Bool) (e : E)
      → Q e
      → (b ≡ false → Yields Q P k)
      → Yields Q P (fail_if b e >>= λ _. k)
  Yields-guard true e q h = record { run = λ w. q }
  Yields-guard false e q h = h refl

  Yields-option :
      {A : Type 0} (P : A → Type 0) (e : E) (r : Option A) (w : W)
      → Q e
      → ((a : A) → P a)
      → Outcome Q P (elim r as (λ _. Result E A × W) [ none ↦ (err e, w) | some a ↦ (ok a, w) ]).0
  Yields-option P e none w q h = q
  Yields-option P e (some a) w q h = h a

  -- A library call of which nothing is known.
  pub Yields-try :
      {A : Type 0} (e : E) (call : Call W A) → Q e → Yields Q (λ _. Unit {0}) (try e call)
  Yields-try e call q = record {
    run = λ w. Yields-option (λ _. Unit {0}) e (call w).0 (call w).1 q (λ _. tt);
  }

Outcome-Meets :
    {E A R : Type 0} (Q : E → Type 0) (P : A → Type 0) (r : Result E A)
    → R
    → Meets R P r
    → Outcome Q P r
Outcome-Meets Q P (ok a) given h = h
Outcome-Meets Q P (err e) given h = absurd (h given)

Outcome-weaken :
    {E A : Type 0} {P P' : A → Type 0} {Q Q' : E → Type 0} (r : Result E A)
    → ((a : A) → P a → P' a)
    → ((e : E) → Q e → Q' e)
    → Outcome Q P r
    → Outcome Q' P' r
Outcome-weaken (ok a) h k o = h a o
Outcome-weaken (err e) h k o = k e o

-- What is documented of a call, and that it is a result of the call.
pub Documents-origin :
    {W A : Type 0} (F : Type 0) (P : A → Type 0) (call : Call W A)
    → ((w : W) → Documents F P (call w).0)
    → (w : W) → Documents F (λ a. P a × ((v : W) × ((call v).0 ≡ some a))) (call w).0
Documents-origin {W} {A} F P call h w = origin (call w).0 refl (h w)
  where
    origin :
        (o : Option A)
        → (call w).0 ≡ o
        → Documents F P o
        → Documents F (λ a. P a × ((v : W) × ((call v).0 ≡ some a))) o
    origin none e d = d
    origin (some a) e d = (d, (w, e))

-- Where the environment gives what it is relied on for, a documented call succeeds.
module _ {W E : Type 0} (Q : E → Type 0) {R : Type 0} (given : R) where
  Yields-option_known :
      {A : Type 0} (P : A → Type 0) (e : E) (r : Option A) (w : W)
      → Documents (¬ R) P r
      → Outcome Q P (elim r as (λ _. Result E A × W) [ none ↦ (err e, w) | some a ↦ (ok a, w) ]).0
  Yields-option_known P e none w d = absurd (d given)
  Yields-option_known P e (some a) w d = d

  pub Yields-known :
      {A : Type 0} {P : A → Type 0} (e : E) (call : Call W A)
      → ((w : W) → Documents (¬ R) P (call w).0)
      → Yields Q P (try e call)
  Yields-known {P} e call h = record {
    run = λ w. Yields-option_known P e (call w).0 (call w).1 (h w);
  }

  -- A documented call and what comes after it.
  pub Yields-call :
      {A B : Type 0} {P : A → Type 0} {S : B → Type 0} {f : A → Action W E B} (e : E)
      (call : Call W A)
      → ((w : W) → Documents (¬ R) P (call w).0)
      → ((a : A) → P a → Yields Q S (f a))
      → Yields Q S (try e call >>= f)
  Yields-call e call h k = Yields-bind Q (Yields-known e call h) k

  pub Yields-Ensures :
      {A : Type 0} {P : A → Type 0} {m : Action W E A} → Ensures R P m → Yields Q P m
  Yields-Ensures {P} {m} h = record { run = λ w. Outcome-Meets Q P (m w).0 given (h.run w) }

module _ {W E : Type 0} where
  pub Yields-weaken :
      {A : Type 0} {P P' : A → Type 0} {Q Q' : E → Type 0} {m : Action W E A}
      → ((a : A) → P a → P' a)
      → ((e : E) → Q e → Q' e)
      → Yields Q P m
      → Yields Q' P' m
  Yields-weaken {P} {P'} {Q} {Q'} {m} h k y = record {
    run = λ w. Outcome-weaken {P = P} {P' = P'} {Q = Q} {Q' = Q'} (m w).0 h k (y.run w);
  }

  -- An early return whose test does not hold, and one whose test holds.
  pub Yields-passes :
      {A : Type 0} (Q : E → Type 0) {P : A → Type 0} {k : Action W E A} {b : Bool} (e : E)
      → b ≡ false
      → Yields Q P k
      → Yields Q P (fail_if b e >>= λ _. k)
  Yields-passes Q e h y = rw h y

  pub Yields-refuses :
      {A : Type 0} (Q : E → Type 0) {P : A → Type 0} (k : Action W E A) {b : Bool} (e : E)
      → b ≡ true
      → Q e
      → Yields Q P (fail_if b e >>= λ _. k)
  Yields-refuses Q k e h q = rw h (record { run = λ w. q })
