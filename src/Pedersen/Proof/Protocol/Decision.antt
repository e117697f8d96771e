-- ===== src/Pedersen/Proof/Protocol/Decision.antt =====
-- What the verifier of the parameters decides on a proof that is written in the code's format.
use audit_mpc_lib.Common.{
  ℕ, zero, suc, ◌+◌, ◌*◌, ◌%◌, ◌^◌, ◌≤◌, ◌<◌, ◌≡◌, refl, ap, ◌∙◌, subst, inr, Bool, true, false,
  Option, none, some, List, [], ◌∷◌, length, arith, ◌==◌, if◌then◌else◌, Action, Call, Documents,
  Ensures, pure, fail, fail_rule, pure_rule, bind_rule, try_rule, call_rule, map_err_rule,
  DecidesBy, decided_rule, guard_rule,
}
use audit_mpc_lib.Common.Sha.{Sha256}
use audit_mpc_lib.Bignum.{Bignum, Documented}
use audit_mpc_lib.Bignum.Modexp.{Modexp, ModexpDocumented, Fits}
use audit_mpc_lib.Drng.{Drng, overlaps, refill}
use audit_mpc_lib.Drng.Stream.{IsValid, next_byte, next_bytes, next_bytes-suc, refill-IsValid}
use audit_mpc_lib.Drng.Rules.{new_rule}
use audit_mpc_lib.Zkp.{verification_failed, unknown_error, out_of_memory}
use audit_mpc_lib.Paillier.Coprime.{Coprime, is_coprime_fast_lem}
use audit_mpc_lib.Pedersen.{PedersenPublic, statistical_security}
use audit_mpc_lib.Pedersen.Codec.{attempt}
use audit_mpc_lib.Pedersen.Commit.Agreement.{mont_rule}
use audit_mpc_lib.Pedersen.Proof.{
  ParamStatus, zkp, ParamProof, calls, init_param_zkp, verify_pairs, serialized_size,
}
use audit_mpc_lib.Pedersen.Proof.Protocol.{
  from_codec, check_proof, check_parameters, param_zkp_verify,
}
use audit_mpc_lib.Pedersen.Proof.Protocol.Seed.{Padding, Fitting, seed_of, generate_zkp_seed_lem}
use audit_mpc_lib.Pedersen.Proof.Protocol.Format.{
  proof_bytes, length-proof_bytes, deserialize_param_zkp_lem,
}
use audit_mpc_lib.Pedersen.Proof.Protocol.Equations.{
  sized, reduced, equation, equations, read_e_lem,
}

module _ {W : Type 0} (R : Type 0) (bn : Bignum W) (law : Documented R bn) (mx : Modexp W)
    (mlaw : ModexpDocumented R mx bn.bn2bin) (sha512 : List ℕ → List ℕ)
    (sha512_len : (m : List ℕ) → length (sha512 m) ≡ 64) (rng_address e_address : ℕ)
    (apart : overlaps rng_address e_address 1 ≡ false) where
  -- What the code compares with the power.
  expected_rule :
      (key : PedersenPublic) (e a : ℕ)
      → 0 < key.n
      → Ensures R
          (λ r. r ≡ (if e % 2 == 1 then a * key.s % key.n else a))
          (if e % 2 == 1 then calls verification_failed (bn.mod_mul a key.s key.n) else pure a)
  expected_rule key e a pos = chosen (e % 2 == 1)
    where
      chosen :
          (odd : Bool)
          → Ensures R
              (λ r. r ≡ (if odd then a * key.s % key.n else a))
              (if odd then calls verification_failed (bn.mod_mul a key.s key.n) else pure a)
      chosen true =
          try_rule R (zkp verification_failed) (bn.mod_mul a key.s key.n)
            (λ w. law.mod_mul_lem a key.s key.n w pos)
      chosen false = pure_rule R a refl

  verify_pairs_lem :
      (key : PedersenPublic) (mont : Option ℕ) (proof : ParamProof) (rng : Drng)
      → key.n % 2 ≡ 1
      → Fits mont key.n
      → IsValid rng
      → DecidesBy R
          (zkp verification_failed)
          (equations key (next_bytes sha512 (length proof) rng).0 proof)
          (verify_pairs bn mx sha512 rng_address e_address key mont proof rng)
  unfolding verify_pairs
  verify_pairs_lem key mont [] rng odd fits v = record {
    accepts = λ _. pure_rule R tt tt;
    refuses = λ no. cc;
  }
  verify_pairs_lem key mont ((a, z) ∷ proof) rng odd fits v =
      let (e, rng') = next_byte sha512 rng in
      let later = (next_bytes sha512 (length proof) rng').0 in
      rw (next_bytes-suc sha512 (length proof) rng) (
        decided_rule R (zkp verification_failed) _
          (read_e_lem R sha512 sha512_len rng_address e_address apart verification_failed rng v)
          λ r h. rw h.0 (
            decided_rule R (zkp verification_failed) _
              (try_rule R (zkp verification_failed) (mx.mod_exp_mont key.t z key.n mont)
                (λ w. mlaw.mod_exp_mont_lem key.t z key.n mont w odd fits))
              λ power hp. rw hp (
                decided_rule R (zkp verification_failed) _
                  (expected_rule key e a (omega (arith, odd)))
                  λ a' ha. rw ha (
                    guard_rule R (zkp verification_failed) (equation key e a z)
                      (equations key later proof)
                      (verify_pairs_lem key mont proof rng' odd fits h.1)))))

  given : Ensures {W = W} {E = ParamStatus} R (Documents (¬ R) (λ _. Unit {0})) (attempt bn.get)
  given = record { run = λ w. law.get_lem w }

  both_rule :
      (a z : Option (Unit {0})) {rest : Action W ParamStatus (Unit {0})}
      → Documents (¬ R) (λ _. Unit {0}) a
      → Documents (¬ R) (λ _. Unit {0}) z
      → Ensures R (λ _. Unit {0}) rest
      → Ensures R
          (λ _. Unit {0})
          (elim a as (λ _. Action W ParamStatus (Unit {0})) [
            | none ↦ fail (zkp out_of_memory)
            | some u ↦ elim z as (λ _. Action W ParamStatus (Unit {0})) [
              | none ↦ fail (zkp out_of_memory)
              | some v ↦ rest
            ]
          ])
  both_rule none z out hz h = fail_rule R (zkp out_of_memory) out
  both_rule (some u) none ha out h = fail_rule R (zkp out_of_memory) out
  both_rule (some u) (some v) ha hz h = h

  pub init_rule : (count : ℕ) → Ensures R (λ _. Unit {0}) (init_param_zkp bn count)
  unfolding init_param_zkp
  init_rule zero = pure_rule R tt tt
  init_rule (suc count) =
      bind_rule R given λ a ha. bind_rule R given λ z hz. both_rule a z ha hz (init_rule count)

  -- Where the number is not there, the answer does not depend on the proof.
  taken_rule :
      (o : Option (Unit {0})) {rest : Action W ParamStatus (Unit {0})} (b : Bool)
      → Documents (¬ R) (λ _. Unit {0}) o
      → DecidesBy R (zkp verification_failed) b rest
      → DecidesBy R
          (zkp verification_failed)
          b
          (elim o as (λ _. Action W ParamStatus (Unit {0})) [ none ↦ pure tt | some u ↦ rest ])
  taken_rule none b out h = record {
    accepts = λ _. pure_rule R tt tt;
    refuses = λ _. record { run = λ w. inr out };
  }
  taken_rule (some u) b here h = h

  -- The parameters pass the checks that come before the proof: the library finds no prime modulus.
  pub record Checked (key : PedersenPublic) : Type 0 where
    pub n_odd : key.n % 2 ≡ 1
    pub s_le : key.s ≤ key.n
    pub t_le : key.t ≤ key.n
    pub size_small : 4 * 2 + mx.num_bytes key.n * 2 * statistical_security < 2 ^ 32
    pub mont_fits : Fits key.mont key.n
    pub coprime : Coprime key.n key.t
    pub composite : (w : W) → Documents (¬ R) (λ prime. prime ≡ false) (mx.is_prime key.n w).0

  check_rule :
      (sha : Sha256) (malloc : Call W (Unit {0})) (key : PedersenPublic)
      → Checked key
      → Ensures R
          (λ _. Unit {0})
          (check_parameters bn mx sha sha512 malloc rng_address e_address key)
  unfolding check_parameters
  check_rule sha malloc key good =
      call_rule R (zkp verification_failed) (mx.is_prime key.n) good.composite λ prime e. rw e (
        bind_rule R
          (map_err_rule R (λ _. zkp verification_failed) (is_coprime_fast_lem R bn law key.n key.t))
          λ coprime answer. rw (answer.1 good.coprime) (pure_rule R tt tt))

  module _ (padded : ℕ → ℕ → List ℕ) (pad : Padding R bn padded) (sha : Sha256)
      (malloc : Call W (Unit {0}))
      (malloc_lem : (w : W) → Documents (¬ R) (λ _. Unit {0}) (malloc w).0) where
    -- The generator's bytes for a proof.
    abbrev pub challenges : PedersenPublic → List ℕ → ParamProof → List ℕ
    challenges key aad proof =
        (next_bytes sha512 statistical_security
          (refill sha512 (seed_of sha padded (mx.num_bytes key.n) key proof aad))).0

    pair_bytes-serialized_size :
        (key : PedersenPublic) (proof : ParamProof)
        → Checked key
        → length proof ≡ statistical_security
        → length (proof_bytes padded (mx.num_bytes key.n) proof) ≡ serialized_size bn mx key
    unfolding serialized_size
    pair_bytes-serialized_size key proof good len =
        length-proof_bytes R bn law padded pad (mx.num_bytes key.n) proof
        ∙ ap (λ k. 4 * 2 + k * (mx.num_bytes key.n * 2)) len
        ∙ reduced (mx.num_bytes key.n) good.size_small

    check_proof_lem :
        (key : PedersenPublic) (aad : List ℕ) (proof : ParamProof)
        → Checked key
        → length proof ≡ statistical_security
        → Fitting (mx.num_bytes key.n) proof
        → DecidesBy R (zkp verification_failed) (equations key (challenges key aad proof) proof) (
            check_proof bn mx sha sha512 malloc rng_address e_address key aad
              (proof_bytes padded (mx.num_bytes key.n) proof))
    unfolding check_proof
    check_proof_lem key aad proof good len fits =
        let size = mx.num_bytes key.n in
        let seed = seed_of sha padded size key proof aad in
        decided_rule R (zkp verification_failed) _ (check_rule sha malloc key good) λ _ _.
          decided_rule R (zkp verification_failed) _ (mont_rule R bn law mx mlaw key good.mont_fits)
            λ mont fitting.
              decided_rule R (zkp verification_failed) _
                (map_err_rule R from_codec (
                  deserialize_param_zkp_lem R bn law padded pad mx proof key.n len
                    (omega (arith, good.size_small)) fits))
                λ read e. rw e (
                  decided_rule R (zkp verification_failed) _
                    (map_err_rule R (λ _. zkp unknown_error)
                      (generate_zkp_seed_lem R bn padded pad sha mx malloc malloc_lem key proof aad
                        (mlaw.num_bytes_lem key.n) good.s_le good.t_le fits))
                    λ s es. rw es (
                      decided_rule R (zkp verification_failed) _
                        (map_err_rule R (λ _. zkp verification_failed)
                          (new_rule R sha512 malloc malloc_lem seed (sha.final_len _)))
                        λ rng er. rw er (
                          subst
                            (λ k.
                              DecidesBy R (zkp verification_failed)
                                (equations key (next_bytes sha512 k (refill sha512 seed)).0 proof)
                                (verify_pairs bn mx sha512 rng_address e_address key mont proof
                                  (refill sha512 seed)))
                            len
                            (verify_pairs_lem key mont proof (refill sha512 seed) good.n_odd fitting
                              (refill-IsValid sha512 sha512_len seed)))))

    -- For parameters that pass the code's checks, data to bind that is not empty, and a proof in the
    -- code's format of 80 pairs of numbers that fit the modulus' length: the proof is accepted when
    -- the equation of each pair holds for its byte of the generator, and otherwise refused with a
    -- failed verification. Other errors occur only where memory runs out.
    pub param_zkp_verify_lem :
        (key : PedersenPublic) (m : ℕ) (aad : List ℕ) (proof : ParamProof)
        → Checked key
        → length proof ≡ statistical_security
        → Fitting (mx.num_bytes key.n) proof
        → DecidesBy R
            (zkp verification_failed)
            (equations key (challenges key (m ∷ aad) proof) proof)
            (param_zkp_verify bn mx sha sha512 malloc rng_address e_address
              (some key)
              (some (m ∷ aad))
              (some (proof_bytes padded (mx.num_bytes key.n) proof))
              (length (proof_bytes padded (mx.num_bytes key.n) proof)))
    unfolding param_zkp_verify
    param_zkp_verify_lem key m aad proof good len fits =
        rw (sized (pair_bytes-serialized_size key proof good len)) (
          decided_rule R (zkp verification_failed) _
            (try_rule R (zkp out_of_memory) bn.ctx_new law.ctx_new_lem)
            λ _ _.
              decided_rule R (zkp verification_failed) _ (init_rule statistical_security) λ _ _.
                decided_rule R (zkp verification_failed) _ given λ t_pow_z h.
                  taken_rule t_pow_z _ h (check_proof_lem key (m ∷ aad) proof good len fits))
