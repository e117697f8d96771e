-- ===== src/DhLog/Completeness.antt =====
-- The verifier of diffie_hellman_log.c accepts what the prover makes.
use native.Mathlib.Nat.{mul_comm}
use audit_mpc_lib.Common.{
  ℕ, ◌+◌, ◌*◌, ◌%◌, ◌≤◌, ◌<◌, ◌≡◌, refl, ap, ◌∙◌, Bool, true, false, ◌&&◌, Option, none, some, List,
  ◌∷◌, length, All, IsByte, arith, ==_iff, from_bytes, Result, ok, err, Action, Call, Ensures,
  Documents, ◌>>=◌, bind_rule, pure_rule, fail_rule, map_err_rule,
}
use audit_mpc_lib.Common.Sha.{Sha256}
use audit_mpc_lib.Algebra.{Algebra, AlgebraLaws}
use audit_mpc_lib.Curve.Status.{EcStatus}
use audit_mpc_lib.Drng.{overlaps, refill}
use audit_mpc_lib.Drng.Stream.{refill-IsValid}
use audit_mpc_lib.Zkp.{ZkpStatus, unknown_error}
use audit_mpc_lib.DhLog.{
  DhStatus, zkp, spinning, e_loop, DhPublicData, ended, proving, respond, dh_log_generate,
  dh_log_verify,
}
use audit_mpc_lib.DhLog.Challenge.{block, e_loop-block, e_loop_len}
use audit_mpc_lib.DhLog.Decision.{generate_e_lem, dh_log_verify_lem}
use audit_mpc_lib.DhLog.Responses.{made_response, scaled_response, third_equation}

-- The draw of a challenge ends: for every seed some block of the generator's stream within the fuel is
-- the first below the group order.
pub record Draw (sha512 : List ℕ → List ℕ) (order : List ℕ) (fuel : ℕ) (seed : List ℕ)
    : Type 0 where
  pub k : ℕ
  pub enough : k < fuel
  pub bytes : (i : ℕ) → i ≤ k → All IsByte (block sha512 i (refill sha512 seed))
  pub above :
      (i : ℕ) → i < k → from_bytes 0 order ≤ from_bytes 0 (block sha512 i (refill sha512 seed))
  pub below : from_bytes 0 (block sha512 k (refill sha512 seed)) < from_bytes 0 order

module _ {W : Type 0} (R : Type 0) (sha512 : List ℕ → List ℕ)
    (sha512_len : (m : List ℕ) → length (sha512 m) ≡ 64) (malloc : Call W (Unit {0}))
    (malloc_lem : (w : W) → Documents (¬ R) (λ _. Unit {0}) (malloc w).0) (alg : Algebra W) (q : ℕ)
    (encoded : ℕ → List ℕ) (law : AlgebraLaws R alg q encoded) (sha : Sha256)
    (rng_address e_address fuel : ℕ) (apart : overlaps rng_address e_address 32 ≡ false)
    (order_bytes : All IsByte alg.order)
    (draws : (seed : List ℕ) → R → Draw sha512 alg.order fuel seed) where
  ended_result :
      (P : List ℕ → Type 0) (r : Option (Result ZkpStatus (List ℕ)))
      → ((e : List ℕ) → r ≡ some (ok e) → P e)
      → (R → (e : List ℕ) × (r ≡ some (ok e)))
      → Ensures R P (ended {W = W} r)
  ended_result P none h ends =
      fail_rule R spinning λ r. (let found = ends r in let (e, eq) = found in cc)
  ended_result P (some (err s)) h ends =
      fail_rule R (zkp s) λ r. (let found = ends r in let (e, eq) = found in cc)
  ended_result P (some (ok e)) h ends = pure_rule R e (h e refl)

  ended_rule :
      (seed : List ℕ)
      → Ensures R
          (λ e.
            (e_loop sha512 rng_address e_address fuel (refill sha512 seed) alg.order ≡ some (ok e))
            × (length e ≡ 32))
          (ended {W = W} (e_loop sha512 rng_address e_address fuel (refill sha512 seed) alg.order))
  ended_rule seed =
      let valid = refill-IsValid sha512 sha512_len seed in
      ended_result _ (e_loop sha512 rng_address e_address fuel (refill sha512 seed) alg.order)
        (λ e h. (
          h,
          e_loop_len sha512 sha512_len rng_address e_address apart alg.order fuel
              (refill sha512 seed) e valid h,
        ))
        λ r.
          let draw = draws seed r in
          (
            block sha512 draw.k (refill sha512 seed),
            e_loop-block sha512 sha512_len rng_address e_address apart alg.order law.order_lem.0
                order_bytes draw.k fuel (refill sha512 seed) valid draw.enough draw.bytes draw.above
                draw.below,
          )

  prove_point :
      {A : Type 0} {Q : A → Type 0} {m : Action W EcStatus (List ℕ)}
      (k : List ℕ → Action W DhStatus A) (j : ℕ)
      → Ensures R (λ p. p ≡ encoded j) m
      → Ensures R Q (k (encoded j))
      → Ensures R Q (proving m >>= k)
  prove_point k j hm hk = bind_rule R (map_err_rule R (λ _. zkp unknown_error) hm) λ p e. rw e hk

  prove_scalar :
      {A : Type 0} {P : List ℕ → Type 0} {Q : A → Type 0} {m : Action W EcStatus (List ℕ)}
      {k : List ℕ → Action W DhStatus A}
      → Ensures R P m
      → ((s : List ℕ) → P s → Ensures R Q (k s))
      → Ensures R Q (proving m >>= k)
  prove_scalar hm hk = bind_rule R (map_err_rule R (λ _. zkp unknown_error) hm) hk

  abbrev pub data_for : ℕ → ℕ → ℕ → ℕ → DhPublicData
  data_for g a b x = record {
    a = encoded a;
    b = encoded b;
    c = encoded (a * b + x);
    x = encoded (g * x);
  }

  all_hold : (s t u : Bool) → s ≡ true → t ≡ true → u ≡ true → (s && (t && u)) ≡ true
  all_hold s t u hs ht hu = rw (hs, ht, hu) refl

  -- The second half of the prover: the challenge and the responses.
  responses :
      (m : ℕ) (aad : List ℕ) (g : ℕ) (d y v secret a b : List ℕ)
      → length d ≡ 32
      → length y ≡ 32
      → 1 ≤ length secret
      → 1 ≤ length a
      → 1 ≤ length b
      → from_bytes 0 v % q ≡ (from_bytes 0 a * from_bytes 0 d + from_bytes 0 y) % q
      → Ensures R
          (λ proof.
            Ensures R
              (λ _. Unit {0})
              (dh_log_verify sha sha512 malloc rng_address e_address fuel
                (some alg)
                (some (m ∷ aad))
                (some (encoded g))
                (some (data_for g (from_bytes 0 a) (from_bytes 0 b) (from_bytes 0 secret)))
                (some proof)))
          (respond sha sha512 malloc rng_address e_address fuel alg
            (some (m ∷ aad))
            (encoded g)
            secret
            b
            (data_for g (from_bytes 0 a) (from_bytes 0 b) (from_bytes 0 secret))
            d
            y
            (encoded (from_bytes 0 d))
            (encoded (g * from_bytes 0 y))
            (encoded (from_bytes 0 v)))
  responses m aad g d y v secret a b hd hy hs ha hb hv =
      let x = from_bytes 0 secret in
      let na = from_bytes 0 a in
      let nb = from_bytes 0 b in
      let nd = from_bytes 0 d in
      let ny = from_bytes 0 y in
      let nv = from_bytes 0 v in
      let public_data = data_for g na nb x in
      bind_rule R
        (generate_e_lem R sha512 malloc malloc_lem alg q encoded law sha rng_address e_address fuel
          (some (m ∷ aad)) (encoded g) public_data (encoded nd) (encoded (g * ny)) (encoded nv)
          (ended_rule _))
        λ e he.
          let ne = from_bytes 0 e in
          prove_scalar (law.mul_scalars_lem e b (omega (arith, he.1)) hb) λ eb heb.
            prove_scalar (law.add_scalars_lem eb d (omega (arith, heb.0)) (omega arith)) λ z hz.
              prove_scalar (law.mul_scalars_lem e secret (omega (arith, he.1)) hs) λ ex hex.
                prove_scalar (law.add_scalars_lem ex y (omega (arith, hex.0)) (omega arith)) λ w hw.
                  let z_lem =
                    made_response q ne nb nd (from_bytes 0 eb) (from_bytes 0 z) heb.1 hz.1 in
                  let w_lem =
                    made_response q ne x ny (from_bytes 0 ex) (from_bytes 0 w) hex.1 hw.1 in
                  pure_rule R _ (
                    (dh_log_verify_lem R sha512 malloc malloc_lem alg q encoded law sha rng_address
                        e_address fuel m aad g na nb (na * nb + x) (g * x) nd (g * ny) nv w z e
                        (omega (arith, hw.0)) (omega (arith, hz.0)) he.0).accepts
                      (all_hold _ _ _
                        ((==_iff _ _).1 (z_lem ∙ ap (λ t. (t + nd) % q) (mul_comm ne nb)))
                        ((==_iff _ _).1 (scaled_response q ne g x ny (from_bytes 0 w) w_lem))
                        ((==_iff _ _).1 (
                          third_equation q ne na nb x nd ny (from_bytes 0 z) (from_bytes 0 w) nv
                            z_lem w_lem hv))))

  -- The verifier accepts what the prover makes from scalars a, b and secret of one byte or more and
  -- their public points, the last two being that of a * b + secret and the secret's multiple of the
  -- base: neither call fails unless memory or randomness runs out, for data to bind that is not
  -- empty, where the draw of a challenge ends.
  pub dh_log_generate-verify :
      (m : ℕ) (aad : List ℕ) (g : ℕ) (secret a b : List ℕ)
      → 1 ≤ length secret
      → 1 ≤ length a
      → 1 ≤ length b
      → Ensures R
          (λ proof.
            Ensures R
              (λ _. Unit {0})
              (dh_log_verify sha sha512 malloc rng_address e_address fuel
                (some alg)
                (some (m ∷ aad))
                (some (encoded g))
                (some (data_for g (from_bytes 0 a) (from_bytes 0 b) (from_bytes 0 secret)))
                (some proof)))
          (dh_log_generate sha sha512 malloc rng_address e_address fuel
            (some alg)
            (some (m ∷ aad))
            (some (encoded g))
            (some secret)
            (some a)
            (some b)
            (some (data_for g (from_bytes 0 a) (from_bytes 0 b) (from_bytes 0 secret)))
            true)
  unfolding dh_log_generate
  dh_log_generate-verify m aad g secret a b hs ha hb =
      let x = from_bytes 0 secret in
      let na = from_bytes 0 a in
      let nb = from_bytes 0 b in
      let public_data = data_for g na nb x in
      prove_scalar law.rand_lem λ d hd. prove_scalar law.rand_lem λ y hy.
        let nd = from_bytes 0 d in
        let ny = from_bytes 0 y in
        prove_point _ nd (law.generator_mul_lem d (omega arith)) (
          prove_point _ (g * ny) (law.point_mul_lem g y) (
            prove_scalar (law.mul_scalars_lem a d ha (omega arith)) λ ad had.
              prove_scalar (law.add_scalars_lem ad y (omega arith) (omega arith)) λ v hv.
                prove_point _ (from_bytes 0 v) (law.generator_mul_lem v (omega arith)) (
                  responses m aad g d y v secret a b hd.0 hy.0 hs ha hb
                    (made_response q na nd ny (from_bytes 0 ad) (from_bytes 0 v) had.1 hv.1))))
