-- ===== src/Pedersen/Keys/Tests.antt =====
-- The generation of keys with a library whose every prime is 7.
use native.Mathlib.Nat.{mod-eq_of_lt}
use audit_mpc_lib.Common.{ℕ, zero, suc, ◌%◌, ◌<◌, ◌≡◌, refl, ap, ◌∙◌, true, arith, err, Ensures}
use audit_mpc_lib.Bignum.Model.{working, working-Documented}
use audit_mpc_lib.Bignum.Modexp.Model.{gcd_steps, working_modexp, working_modexp-ModexpDocumented}
use audit_mpc_lib.Pedersen.Keys.{spinning, draw_coprime, generate_key_pair}
use audit_mpc_lib.Pedersen.Keys.Generated.{IsGenerated, generate_key_pair_lem}
use audit_mpc_lib.Pedersen.Tests.{always}

-- The number 1 is drawn, which is coprime to any modulus.
one_end : (k b : ℕ) → b ≡ 0 → gcd_steps k 1 b ≡ 1
unfolding gcd_steps
one_end zero b h = refl
one_end (suc k) zero h = refl
one_end (suc k) (suc b) h = absurd (omega arith)

one_left : (k a b : ℕ) → b ≡ 1 → gcd_steps k a b ≡ (elim k as (λ _. ℕ) [ zero ↦ a | suc j ↦ 1 ])
unfolding gcd_steps
one_left zero a b h = refl
one_left (suc k) a zero h = absurd (omega arith)
one_left (suc k) a (suc zero) h = one_end k (a % 1) (omega arith)
one_left (suc k) a (suc (suc b)) h = absurd (omega arith)

gcd_one : (n : ℕ) → 0 < n → gcd_steps n (1 % n) n ≡ 1
unfolding gcd_steps
gcd_one zero h = absurd (omega arith)
gcd_one (suc zero) h = refl
gcd_one (suc (suc k)) h = one_left (suc k) (suc (suc k)) (1 % suc (suc k) % suc (suc k)) (
    ap (λ t. t % suc (suc k)) (mod-eq_of_lt {n = 1} (omega arith))
    ∙ mod-eq_of_lt {n = 1} (omega arith))

one_draw :
    (n : ℕ) (w : Unit {0})
    → 0 < n
    → (draw_coprime working working_modexp always 1 n w).0 ≡ err spinning
    → ¬ Unit {0}
unfolding draw_coprime
one_draw n w h e u = (let e' = rw (gcd_one n h, draw_coprime) at e in cc)

generate_key_pair_lem_example :
    Ensures
      (Unit {0})
      (λ pair. IsGenerated pair.0 pair.1)
      (generate_key_pair working working_modexp always 1 256 true)
generate_key_pair_lem_example =
    generate_key_pair_lem (Unit {0}) working working-Documented working_modexp
      working_modexp-ModexpDocumented always (λ w. tt) 1 256 (omega arith) one_draw
