-- ===== src/Schnorr/Completeness.antt =====
-- A proof of schnorr.c is accepted exactly when its equation holds, and the prover's holds.
use audit_mpc_lib.Common.{
  ℕ, ◌+◌, ◌-◌, ◌*◌, ◌%◌, ◌≤◌, ◌≡◌, refl, ap, ◌∙◌, true, Option, none, some, List, [], ◌∷◌, length,
  arith, ◌==◌, ==_iff, Ensures, DecidesBy, decided_rule, answer_rule, bind_rule, pure_rule,
  map_err_rule, weaken_rule, from_bytes, add_sub-mod,
}
use audit_mpc_lib.Common.Sha.{Sha256}
use audit_mpc_lib.Algebra.{Algebra, AlgebraLaws}
use audit_mpc_lib.Curve.Group.{dot}
use audit_mpc_lib.Curve.Points.Arithmetic.{values}
use audit_mpc_lib.Zkp.{verification_failed}
use audit_mpc_lib.Schnorr.{
  SchnorrZkp, from_elliptic_curve_algebra_status, one, challenge, pick_k, schnorr_zkp_generate_impl,
  schnorr_zkp_generate, schnorr_zkp_generate_for_data, schnorr_zkp_verify,
}

plus_zeros : (a b : ℕ) → a * 1 + (b * 1 + 0) ≡ a + b
plus_zeros a b = omega arith

unit_combination : (a b : ℕ) → dot (a ∷ b ∷ []) (values (one ∷ one ∷ [])) ≡ a + b
unfolding dot from_bytes
unit_combination a b = plus_zeros a b

module _ {W : Type 0} (R : Type 0) (alg : Algebra W) (q : ℕ) (encoded : ℕ → List ℕ)
    (law : AlgebraLaws R alg q encoded) (sha : Sha256) where
  -- The challenge as a number.
  abbrev pub number : List ℕ → List ℕ → List ℕ → ℕ
  number prover_id r public_data = from_bytes 0 (challenge sha prover_id r public_data)

  challenge_len : (id r p : List ℕ) → length (challenge sha id r p) ≡ 32
  unfolding challenge
  challenge_len id r p = sha.final_len _

  combination_lem :
      (j e s : ℕ) (r : List ℕ)
      → r ≡ encoded j
      → Ensures R
          (λ a. a ≡ ((e + s) % q == j % q))
          (alg.verify_linear_combination r (encoded e ∷ encoded s ∷ []) (one ∷ one ∷ []))
  combination_lem j e s r hr =
      rw (hr, ← unit_combination e s)
        (law.verify_linear_combination_lem j (e ∷ s ∷ []) (one ∷ one ∷ []) (omega arith) refl)

  -- A proof for the exponent `x`, whose commitment has the exponent `j`, is accepted when
  -- x times the challenge plus the response is j modulo the group order, and otherwise refused with
  -- a failed verification; other errors occur only where memory runs out.
  pub schnorr_zkp_verify_lem :
      (b : ℕ) (bs : List ℕ) (x j : ℕ) (proof : SchnorrZkp)
      → proof.r ≡ encoded j
      → 1 ≤ length proof.s
      → DecidesBy R verification_failed
          ((x * number (b ∷ bs) proof.r (encoded x) + from_bytes 0 proof.s) % q == j % q)
          (schnorr_zkp_verify sha (some alg) (some (b ∷ bs)) (some (encoded x)) (some proof))
  unfolding schnorr_zkp_verify
  schnorr_zkp_verify_lem b bs x j proof hr hs =
      let e = x * number (b ∷ bs) proof.r (encoded x) in
      let s = from_bytes 0 proof.s in
      decided_rule R verification_failed ((e + s) % q == j % q)
        (map_err_rule R from_elliptic_curve_algebra_status
          (law.point_mul_lem x (challenge sha (b ∷ bs) proof.r (encoded x))))
        λ p0 h0.
          decided_rule R verification_failed ((e + s) % q == j % q)
            (map_err_rule R from_elliptic_curve_algebra_status (law.generator_mul_lem proof.s hs))
            λ p1 h1.
              rw (h0, h1)
                (decided_rule R verification_failed ((e + s) % q == j % q)
                  (map_err_rule R from_elliptic_curve_algebra_status
                    (combination_lem j e s proof.r hr))
                  λ r h. answer_rule R verification_failed ((e + s) % q == j % q) r h)

  -- What a proof for the exponent `x` has to be.
  pub record Proves (id : List ℕ) (x : ℕ) (proof : SchnorrZkp) : Type 0 where
    pub exponent : ℕ
    pub r_lem : proof.r ≡ encoded exponent
    pub s_len : length proof.s ≡ 32
    pub equation : (x * number id proof.r (encoded x) + from_bytes 0 proof.s) % q ≡ exponent % q

  pub generate_impl_lem :
      (id secret : List ℕ) (randomness : Option (List ℕ))
      → 1 ≤ length secret
      → Ensures R (λ k. 1 ≤ length k) (pick_k alg randomness)
      → Ensures R
          (Proves id (from_bytes 0 secret))
          (schnorr_zkp_generate_impl sha alg id secret (encoded (from_bytes 0 secret)) randomness)
  unfolding schnorr_zkp_generate_impl
  generate_impl_lem id secret randomness hs hk =
      let x = from_bytes 0 secret in
      bind_rule R hk λ k k_len.
        bind_rule R
          (map_err_rule R from_elliptic_curve_algebra_status (law.generator_mul_lem k k_len))
          λ r hr.
            bind_rule R
              (map_err_rule R from_elliptic_curve_algebra_status (
                law.mul_scalars_lem secret (challenge sha id r (encoded x)) hs
                  (omega (arith, challenge_len id r (encoded x)))))
              λ c hc.
                bind_rule R
                  (map_err_rule R from_elliptic_curve_algebra_status
                    (law.sub_scalars_lem k c k_len (omega arith)))
                  λ s hs'.
                    pure_rule R (record { r = r; s = s })
                      (record {
                        exponent = from_bytes 0 k;
                        r_lem = hr;
                        s_len = hs'.0;
                        equation =
                            ap (λ t. (x * number id r (encoded x) + t) % q)
                              (hs'.1 ∙ ap (λ t. (from_bytes 0 k % q + (q - t % q)) % q) hc.1)
                            ∙ add_sub-mod (x * number id r (encoded x)) (from_bytes 0 k) q
                                law.order_pos;
                      })

  one_byte : (s : List ℕ) → length s ≡ 32 → 1 ≤ length s
  one_byte s h = omega arith

  rand_k : Ensures R (λ k. 1 ≤ length k) (pick_k alg none)
  rand_k =
      map_err_rule R from_elliptic_curve_algebra_status
        (weaken_rule R law.rand_lem λ k h. one_byte k h.0)

  -- A proof that meets its equation is accepted.
  pub Proves-accepted :
      (b : ℕ) (bs : List ℕ) (x : ℕ) (proof : SchnorrZkp)
      → Proves (b ∷ bs) x proof
      → Ensures R
          (λ _. Unit {0})
          (schnorr_zkp_verify sha (some alg) (some (b ∷ bs)) (some (encoded x)) (some proof))
  Proves-accepted b bs x proof h =
      (schnorr_zkp_verify_lem b bs x h.exponent proof h.r_lem (one_byte proof.s h.s_len)).accepts
        ((==_iff _ _).1 h.equation)

  -- The verifier accepts what the prover makes, for a secret of one byte or more, its public point
  -- and a prover's name that is not empty: neither call fails unless memory or randomness runs out.
  pub schnorr_zkp_generate-verify :
      (b : ℕ) (bs secret : List ℕ)
      → 1 ≤ length secret
      → Ensures R
          (λ proof.
            Ensures R
              (λ _. Unit {0})
              (schnorr_zkp_verify sha
                (some alg)
                (some (b ∷ bs))
                (some (encoded (from_bytes 0 secret)))
                (some proof)))
          (schnorr_zkp_generate sha
            (some alg)
            (some (b ∷ bs))
            (some secret)
            (some (encoded (from_bytes 0 secret)))
            true)
  unfolding schnorr_zkp_generate
  schnorr_zkp_generate-verify b bs secret h =
      weaken_rule R (generate_impl_lem (b ∷ bs) secret none h rand_k)
        λ proof p. Proves-accepted b bs (from_bytes 0 secret) proof p

  -- `schnorr_zkp_generate_for_data`, for a secret of one byte or more and a prover's name that is not
  -- empty, returns the secret's point and a proof that the verifier accepts with it, unless memory or
  -- randomness runs out.
  pub schnorr_zkp_generate_for_data-verify :
      (b : ℕ) (bs : List ℕ) (x : ℕ) (secret : List ℕ)
      → Ensures R
          (λ made.
            (made.0 ≡ encoded (from_bytes 0 (x ∷ secret)))
            × Ensures R
                (λ _. Unit {0})
                (schnorr_zkp_verify sha (some alg) (some (b ∷ bs)) (some made.0) (some made.1)))
          (schnorr_zkp_generate_for_data sha
            (some alg)
            (some (b ∷ bs))
            (some (x ∷ secret))
            true
            true)
  unfolding schnorr_zkp_generate_for_data
  schnorr_zkp_generate_for_data-verify b bs x secret =
      let n = from_bytes 0 (x ∷ secret) in
      bind_rule R
        (map_err_rule R from_elliptic_curve_algebra_status
          (law.generator_mul_data_lem (x ∷ secret) (omega arith)))
        λ point hp. rw hp (
          bind_rule R (generate_impl_lem (b ∷ bs) (x ∷ secret) none (omega arith) rand_k)
            λ proof p. pure_rule R (encoded n, proof) (refl, Proves-accepted b bs n proof p))
