-- ===== src/DhLog/Decision.antt =====
-- What the verifier of diffie_hellman_log.c decides.
use audit_mpc_lib.Common.{
  ℕ, ◌+◌, ◌*◌, ◌%◌, ◌≤◌, ◌≡◌, ◌↔◌, refl, sym, ap, ◌∙◌, Bool, true, false, not, ◌&&◌, Option, some,
  List, ◌∷◌, length, ◌==◌, ==_iff, bytes_eq, bytes_eq_iff, from_bytes, Result, ok, Action, Call,
  Ensures, Documents, ◌>>=◌, bind_rule, pure_rule, map_err_rule, fail_if, DecidesBy, decided_rule,
  guard_rule, last_guard_rule,
}
use audit_mpc_lib.Common.Sha.{Sha256}
use audit_mpc_lib.Algebra.{Algebra, AlgebraLaws}
use audit_mpc_lib.Curve.Status.{EcStatus}
use audit_mpc_lib.Drng.Rules.{new_rule}
use audit_mpc_lib.Drng.{refill}
use audit_mpc_lib.Zkp.{ZkpStatus, verification_failed, out_of_memory}
use audit_mpc_lib.DhLog.{
  DhStatus, zkp, DhPublicData, DhLogZkp, e_loop, e_seed, ended, checking,
  from_elliptic_curve_status, generate_e, dh_log_verify,
}

-- A rule for a test whose operands agree exactly when two numbers do.
same_test : (s t : Bool) → (s ≡ true) ↔ (t ≡ true) → s ≡ t
same_test true true h = refl
same_test true false h = sym (h.0 refl)
same_test false true h = h.1 refl
same_test false false h = refl

module _ {W : Type 0} (R : Type 0) (sha512 : List ℕ → List ℕ) (malloc : Call W (Unit {0}))
    (malloc_lem : (w : W) → Documents (¬ R) (λ _. Unit {0}) (malloc w).0) where
  module _ (alg : Algebra W) (q : ℕ) (encoded : ℕ → List ℕ) (law : AlgebraLaws R alg q encoded)
      (sha : Sha256) (rng_address e_address fuel : ℕ) where
    -- The challenge for a proof's commitments, where the draw ends.
    abbrev pub drawn :
        Option (List ℕ)
        → List ℕ
        → DhPublicData
        → List ℕ
        → List ℕ
        → List ℕ
        → Option (Result ZkpStatus (List ℕ))
    drawn aad base public_data d y v =
        e_loop sha512 rng_address e_address fuel
          (refill sha512 (e_seed sha aad base public_data d y v)) alg.order

    e_seed_len :
        (aad : Option (List ℕ)) (base : List ℕ) (public_data : DhPublicData) (d y v : List ℕ)
        → length (e_seed sha aad base public_data d y v) ≡ 32
    unfolding e_seed
    e_seed_len aad base public_data d y v = sha.final_len _

    pub generate_e_lem :
        (aad : Option (List ℕ)) (base : List ℕ) (public_data : DhPublicData) (d y v : List ℕ)
        {P : List ℕ → Type 0}
        → Ensures R P (ended {W = W} (drawn aad base public_data d y v))
        → Ensures R P
            (generate_e sha sha512 malloc rng_address e_address fuel alg aad base public_data d y v)
    unfolding generate_e
    generate_e_lem aad base public_data d y v h =
        bind_rule R
          (map_err_rule R (λ _. zkp out_of_memory)
            (new_rule R sha512 malloc malloc_lem (e_seed sha aad base public_data d y v)
              (e_seed_len aad base public_data d y v)))
          λ rng e. rw e h

    ended_known :
        (r : Option (Result ZkpStatus (List ℕ))) (e : List ℕ)
        → r ≡ some (ok e)
        → Ensures R (λ a. a ≡ e) (ended {W = W} r)
    ended_known r e h = rw h (pure_rule R e refl)

    point_rule :
        {m : Action W EcStatus (List ℕ)} (k : List ℕ → Action W DhStatus (Unit {0})) (j : ℕ)
        (b : Bool)
        → Ensures R (λ p. p ≡ encoded j) m
        → DecidesBy R (zkp verification_failed) b (k (encoded j))
        → DecidesBy R (zkp verification_failed) b (checking m >>= k)
    point_rule k j b hm hk =
        decided_rule R (zkp verification_failed) b
          (map_err_rule R (λ e. zkp (from_elliptic_curve_status e)) hm) λ p e. rw e hk

    bytes_eq-encoded : (j k : ℕ) → bytes_eq (encoded j) (encoded k) ≡ (j % q == k % q)
    bytes_eq-encoded j k = same_test _ _ (
      λ e. (==_iff (j % q) (k % q)).1 (law.encoded_lem j k ((bytes_eq_iff _ _).0 e)),
      λ e.
          (bytes_eq_iff _ _).1 (
            law.encoded-mod j
            ∙ ap encoded ((==_iff (j % q) (k % q)).0 e)
            ∙ sym (law.encoded-mod k)),
    )

    compare_rule :
        (j k : ℕ) (b : Bool) {m : Action W DhStatus (Unit {0})}
        → DecidesBy R (zkp verification_failed) b m
        → DecidesBy R
            (zkp verification_failed)
            ((j % q == k % q) && b)
            (fail_if (not (bytes_eq (encoded j) (encoded k))) (zkp verification_failed) >>= λ _. m)
    compare_rule j k b h =
        rw (bytes_eq-encoded j k) (guard_rule R (zkp verification_failed) (j % q == k % q) b h)

    last_rule :
        (j k : ℕ)
        → DecidesBy R
            (zkp verification_failed)
            (j % q == k % q)
            (fail_if {W = W} (not (bytes_eq (encoded j) (encoded k))) (zkp verification_failed))
    last_rule j k =
        rw (bytes_eq-encoded j k) (last_guard_rule R (zkp verification_failed) (j % q == k % q))

    -- The public points and the commitments of a proof, by their exponents.
    abbrev pub data_of : ℕ → ℕ → ℕ → ℕ → DhPublicData
    data_of a b c x = record { a = encoded a; b = encoded b; c = encoded c; x = encoded x }

    abbrev pub proof_of : ℕ → ℕ → ℕ → List ℕ → List ℕ → DhLogZkp
    proof_of d y v w z = record { d = encoded d; y = encoded y; v = encoded v; w = w; z = z }

    -- For points and commitments given by their exponents, responses of one byte or more, data to bind
    -- that is not empty, and a challenge that is drawn: the proof is accepted when its three equations
    -- hold modulo the group order, and otherwise refused with a failed verification; other errors occur
    -- only where memory runs out.
    pub dh_log_verify_lem :
        (m : ℕ) (aad : List ℕ) (g a b c x d y v : ℕ) (w z e : List ℕ)
        → 1 ≤ length w
        → 1 ≤ length z
        → drawn (some (m ∷ aad)) (encoded g) (data_of a b c x) (encoded d) (encoded y) (encoded v)
          ≡ some (ok e)
        → DecidesBy R
            (zkp verification_failed)
            ((from_bytes 0 z % q == (b * from_bytes 0 e + d) % q)
              && ((g * from_bytes 0 w % q == (x * from_bytes 0 e + y) % q)
                  && ((a * from_bytes 0 z + from_bytes 0 w) % q == (c * from_bytes 0 e + v) % q)))
            (dh_log_verify sha sha512 malloc rng_address e_address fuel
              (some alg)
              (some (m ∷ aad))
              (some (encoded g))
              (some (data_of a b c x))
              (some (proof_of d y v w z)))
    unfolding dh_log_verify
    dh_log_verify_lem m aad g a b c x d y v w z e hw hz draws =
        let n = from_bytes 0 e in
        decided_rule R (zkp verification_failed) _
          (generate_e_lem (some (m ∷ aad)) (encoded g) (data_of a b c x) (encoded d) (encoded y)
            (encoded v) (ended_known _ e draws))
          λ e' same. rw same (
            point_rule _ (from_bytes 0 z) _ (law.generator_mul_lem z hz) (
              point_rule _ (b * n) _ (law.point_mul_lem b e) (
                point_rule _ (b * n + d) _ (law.add_points_lem (b * n) d) (
                  compare_rule (from_bytes 0 z) (b * n + d) _ (
                    point_rule _ (g * from_bytes 0 w) _ (law.point_mul_lem g w) (
                      point_rule _ (x * n) _ (law.point_mul_lem x e) (
                        point_rule _ (x * n + y) _ (law.add_points_lem (x * n) y) (
                          compare_rule (g * from_bytes 0 w) (x * n + y) _ (
                            point_rule _ (a * from_bytes 0 z) _ (law.point_mul_lem a z) (
                              point_rule _ (from_bytes 0 w) _ (law.generator_mul_lem w hw) (
                                point_rule _ (a * from_bytes 0 z + from_bytes 0 w) _
                                  (law.add_points_lem (a * from_bytes 0 z) (from_bytes 0 w))
                                  (point_rule _ (c * n) _ (law.point_mul_lem c e) (
                                    point_rule _ (c * n + v) _ (law.add_points_lem (c * n) v) (
                                      last_rule (a * from_bytes 0 z + from_bytes 0 w)
                                        (c * n + v)))))))))))))))
