-- ===== src/Common/Decisions.antt =====
-- Calls that answer a yes-or-no question by their status.
use mathlib.Core.Path.{◌≡◌, refl}
use mathlib.Core.Logic.{◌⊎◌, inl, inr}
use mathlib.Core.Bool.{Bool, true, false, not, ◌&&◌}
use audit_mpc_lib.Common.Tests.{if◌then◌else◌}
use audit_mpc_lib.Common.Results.{
  Result, ok, err, Action, Ensures, Meets, resume, ◌>>=◌, pure, fail, fail_if, pure_rule, bind_rule,
}

-- An assert whose condition holds, in every build.
pub assert_passes : (asserts : Bool) (b : Bool) → b ≡ false → (asserts && b) ≡ false
assert_passes true b h = h
assert_passes false b h = refl

-- Every run ends with the status `e`, or shows that `R` did not hold.
pub record StopsWith {W E A : Type 0} (R : Type 0) (e : E) (m : Action W E A) : Type 0 where
  pub run : (w : W) → ((m w).0 ≡ err e) ⊎ (¬ R)

-- The call succeeds when `b` is true, and refuses with the status `e` when it is false.
pub record DecidesBy {W E A : Type 0} (R : Type 0) (e : E) (b : Bool) (m : Action W E A)
    : Type 0 where
  pub accepts : b ≡ true → Ensures R (λ _. Unit {0}) m
  pub refuses : b ≡ false → StopsWith R e m

module _ {W E : Type 0} (R : Type 0) where
  resume_refuses :
      {A B : Type 0} {P : A → Type 0} (e : E) (r : Result E A) (w : W) (f : A → Action W E B)
      → Meets R P r
      → ((a : A) → P a → StopsWith R e (f a))
      → ((resume r w f).0 ≡ err e) ⊎ (¬ R)
  resume_refuses e (ok a) w f h k = (k a h).run w
  resume_refuses e (err e') w f h k = inr h

  pub refuses_rule :
      {A B : Type 0} {P : A → Type 0} {m : Action W E A} {f : A → Action W E B} (e : E)
      → Ensures R P m
      → ((a : A) → P a → StopsWith R e (f a))
      → StopsWith R e (m >>= f)
  refuses_rule {m} {f} e hm hf = record {
    run = λ w. resume_refuses e (m w).0 (m w).1 f (hm.run w) hf;
  }

  -- A step that does not fail, and what comes after it.
  pub decided_rule :
      {A B : Type 0} {P : A → Type 0} {m : Action W E A} {f : A → Action W E B} (e : E) (b : Bool)
      → Ensures R P m
      → ((a : A) → P a → DecidesBy R e b (f a))
      → DecidesBy R e b (m >>= f)
  decided_rule e b hm hf = record {
    accepts = λ yes. bind_rule R hm (λ a h. (hf a h).accepts yes);
    refuses = λ no. refuses_rule e hm (λ a h. (hf a h).refuses no);
  }

  pub answer_rule :
      (e : E) (b r : Bool) → r ≡ b → DecidesBy {W = W} R e b (if r then pure tt else fail e)
  answer_rule e true r h = rw h (record { accepts = λ _. pure_rule R tt tt; refuses = λ no. cc })
  answer_rule e false r h =
      rw h (record { accepts = λ yes. cc; refuses = λ _. record { run = λ w. inl refl } })

  -- An early return: the call succeeds where the test holds and the rest succeeds.
  pub guard_rule :
      (e : E) (t b : Bool) {k : Action W E (Unit {0})}
      → DecidesBy R e b k
      → DecidesBy R e (t && b) (fail_if (not t) e >>= λ _. k)
  guard_rule e true b h = h
  guard_rule e false b h = record {
    accepts = λ yes. cc;
    refuses = λ _. record { run = λ w. inl refl };
  }

  -- An early return at the end.
  pub last_guard_rule : (e : E) (t : Bool) → DecidesBy {W = W} R e t (fail_if (not t) e)
  last_guard_rule e true = record { accepts = λ _. pure_rule R tt tt; refuses = λ no. cc }
  last_guard_rule e false = record {
    accepts = λ yes. cc;
    refuses = λ _. record { run = λ w. inl refl };
  }
