-- ===== src/DhLog/Responses.antt =====
-- The responses of the prover of diffie_hellman_log.c meet the verifier's equations.
use native.Mathlib.Nat.{mod-mod, mod-add-mod}
use audit_mpc_lib.Common.{ℕ, ◌+◌, ◌*◌, ◌%◌, ◌≡◌, refl, sym, ap, ◌∙◌, arith, add-cong, mul-cong}

-- A product and a sum, each reduced, as the prover's responses are made.
pub made_response : (q e b d eb z : ℕ) → eb ≡ e * b % q → z ≡ (eb + d) % q → z % q ≡ (e * b + d) % q
made_response q e b d eb z heb hz =
    ap (λ t. t % q) (hz ∙ ap (λ t. (t + d) % q) heb ∙ mod-add-mod (e * b) q d)
    ∙ mod-mod (e * b + d) q

pub scaled_response :
    (q e g x y w : ℕ) → w % q ≡ (e * x + y) % q → g * w % q ≡ (g * x * e + g * y) % q
scaled_response q e g x y w hw =
    mul-cong q g g w (e * x + y) refl hw ∙ ap (λ t. t % q) (grind arith)

pub third_equation :
    (q e a b x d y z w v : ℕ)
    → z % q ≡ (e * b + d) % q
    → w % q ≡ (e * x + y) % q
    → v % q ≡ (a * d + y) % q
    → (a * z + w) % q ≡ ((a * b + x) * e + v) % q
third_equation q e a b x d y z w v hz hw hv =
    add-cong q (a * z) (a * (e * b + d)) w (e * x + y) (mul-cong q a a z (e * b + d) refl hz) hw
    ∙ ap (λ t. t % q) (grind arith)
    ∙ add-cong q ((a * b + x) * e) ((a * b + x) * e) (a * d + y) v refl (sym hv)
