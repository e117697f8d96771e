-- ===== src/Paillier/Coprime.antt =====
-- The test for coprime numbers ends with the right answer.
use Prim.Native.Nat.{◌∣◌}
use native.Mathlib.Nat.{dvd-mod_iff, eq-one_of_dvd-one, dvd_refl, dvd-zero}
use audit_mpc_lib.Common.{
  ℕ, zero, suc, ◌%◌, ◌<◌, ◌≡◌, ◌↔◌, Bool, true, false, ltb, ◌==◌, ==_iff, if◌then◌else◌, arith,
  Ensures, pure_rule, call_rule, weaken_rule,
}
use audit_mpc_lib.Bignum.{Bignum, Documented}
use audit_mpc_lib.Paillier.{failed, coprime_loop, is_coprime_fast}

-- One is the only common divisor.
abbrev pub Coprime : ℕ → ℕ → Type 0
Coprime a b = (d : ℕ) → d ∣ a → d ∣ b → d ≡ 1

Coprime-comm : (a b : ℕ) → Coprime a b → Coprime b a
Coprime-comm a b h = λ d x y. h d y x

-- A pair and the pair behind one round have the same common divisors.
Coprime-round : (a b : ℕ) → Coprime b (a % b) ↔ Coprime a b
Coprime-round a b =
    (λ h d x y. h d y ((dvd-mod_iff d y).1 x), λ h d x y. h d ((dvd-mod_iff d x).0 y) x)

Coprime-zero : (a : ℕ) → ((a == 1) ≡ true) ↔ Coprime a 0
Coprime-zero a = (
  λ e d x y. eq-one_of_dvd-one (rw ((==_iff a 1).0 e) at x),
  λ h. (==_iff a 1).1 (h a (dvd_refl a) (dvd-zero a)),
)

-- A Boolean answer to a question.
abbrev pub Answers : Type 0 → Bool → Type 0
Answers P b = (b ≡ true) ↔ P

Answers-by : {P Q : Type 0} {b : Bool} → P ↔ Q → Answers P b → Answers Q b
Answers-by h k = (λ e. h.0 (k.0 e), λ q. k.1 (h.1 q))

suc_not_zero : (b : ℕ) → (suc b == 0) ≡ false
suc_not_zero b = ground arith

module _ {W : Type 0} (R : Type 0) (bn : Bignum W) (law : Documented R bn) where
  coprime_loop_lem :
      (fuel a b : ℕ) → b < fuel → Ensures R (Answers (Coprime a b)) (coprime_loop bn fuel a b)
  unfolding coprime_loop
  coprime_loop_lem zero a b h = absurd (omega arith)
  coprime_loop_lem (suc fuel) a zero h = pure_rule R (a == 1) (Coprime-zero a)
  coprime_loop_lem (suc fuel) a (suc b) h =
      rw (suc_not_zero b, coprime_loop)
        (call_rule R failed (bn.modulo a (suc b)) (λ w. law.modulo_lem a (suc b) w (omega arith))
          λ rest e. rw e (
            weaken_rule R (coprime_loop_lem fuel (suc b) (a % suc b) (omega arith))
              λ answer k. Answers-by (Coprime-round a (suc b)) k))

  -- On any two numbers the test ends, and answers yes exactly when one is their only common divisor;
  -- it fails only where memory runs out, and never for want of rounds.
  pub is_coprime_fast_lem : (a b : ℕ) → Ensures R (Answers (Coprime a b)) (is_coprime_fast bn a b)
  unfolding is_coprime_fast
  is_coprime_fast_lem a b = call_rule R failed bn.get law.get_lem λ _ _.
      call_rule R failed bn.get law.get_lem λ _ _.
        call_rule R failed (bn.copy a) (law.copy_lem a) λ a' ea.
          call_rule R failed (bn.copy b) (law.copy_lem b)
            λ b' eb. rw (ea, eb) (ordered a b (ltb a b))
    where
      ordered :
          (a b : ℕ) (swap : Bool)
          → Ensures R
              (Answers (Coprime a b))
              (if swap then coprime_loop bn (suc a) b a else coprime_loop bn (suc b) a b)
      ordered a b true =
          weaken_rule R (coprime_loop_lem (suc a) b a (omega arith))
            λ answer k. Answers-by (Coprime-comm b a, Coprime-comm a b) k
      ordered a b false = coprime_loop_lem (suc b) a b (omega arith)
