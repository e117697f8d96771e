-- ===== src/Pedersen/Proof/Protocol.antt =====
-- ring_pedersen_parameters_zkp_generate and ring_pedersen_parameters_zkp_verify.
pub mod Seed
pub mod Format
pub mod Equations
pub mod Decision
pub mod Answers
pub mod Completeness
use audit_mpc_lib.Common.{
  ℕ, zero, suc, ◌+◌, ◌*◌, ◌%◌, ◌^◌, Bool, true, false, not, ◌&&◌, Option, none, some, List, [], ◌∷◌,
  length, ltb, ◌==◌, if◌then◌else◌, Result, ok, err, Action, Call, pure, fail, fail_if, try,
  map_err, ◌>>=◌, ◌>>◌,
}
use audit_mpc_lib.Common.Sha.{Sha256}
use audit_mpc_lib.Bignum.{Bignum}
use audit_mpc_lib.Bignum.Modexp.{Modexp}
use audit_mpc_lib.Drng.{drng_new}
use audit_mpc_lib.Zkp.{
  ZkpStatus, unknown_error, invalid_parameter, insufficient_buffer, verification_failed,
  out_of_memory,
}
use audit_mpc_lib.Paillier.{is_coprime_fast}
use audit_mpc_lib.Pedersen.{PedersenPublic, PedersenPrivate, statistical_security}
use audit_mpc_lib.Pedersen.Codec.{CodecStatus, refused, attempt}
use audit_mpc_lib.Pedersen.Commit.{init_mont}
use audit_mpc_lib.Pedersen.Proof.{
  ParamStatus, zkp, codec, calls, or_else, init_param_zkp, serialized_size, serialize_param_zkp,
  deserialize_param_zkp, generate_zkp_seed, draw_pairs, respond_pairs, verify_pairs,
}

-- A proof that cannot be read is refused.
abbrev pub from_codec : CodecStatus → ParamStatus
from_codec refused = zkp verification_failed
from_codec e = codec e

module _ {W : Type 0} (bn : Bignum W) (mx : Modexp W) (sha : Sha256) (sha512 : List ℕ → List ℕ)
    (malloc : Call W (Unit {0})) (rng_address e_address : ℕ) where
  open bn use {ctx_new, get}
  open mx use {is_prime}

  -- The real length, which is set for valid parameters, and what is written to the buffer, whose
  -- bytes before the call are given.
  unfoldable pub param_zkp_generate :
      Option PedersenPrivate
      → Option (List ℕ)
      → Option (List ℕ)
      → ℕ
      → Option ℕ × Action W ParamStatus (List ℕ)
  param_zkp_generate (some key) (some (m ∷ aad)) none (suc proof_len) =
      (none, fail (zkp invalid_parameter))
  param_zkp_generate (some key) (some (m ∷ aad)) none zero =
      (some (serialized_size bn mx key.public), fail (zkp insufficient_buffer))
  param_zkp_generate (some key) (some (m ∷ aad)) (some buffer) proof_len = (
    some (serialized_size bn mx key.public),
    (do
      fail_if (ltb proof_len (serialized_size bn mx key.public)) (zkp insufficient_buffer)
      calls out_of_memory ctx_new
      mont ← init_mont mx key.public
      init_param_zkp bn statistical_security
      pairs ← draw_pairs bn mx key mont statistical_security
      seed ← or_else unknown_error (generate_zkp_seed bn mx sha malloc key.public pairs (m ∷ aad))
      rng ← or_else unknown_error (drng_new sha512 malloc (some seed) true)
      proof ← respond_pairs bn mx sha512 rng_address e_address key pairs rng
      serialize_param_zkp bn mx proof key.public.n buffer),
  )
  param_zkp_generate _ _ _ _ = (none, fail (zkp invalid_parameter))

  -- The checks of the modulus and of t, which a failure refuses as well.
  unfoldable pub check_parameters : PedersenPublic → Action W ParamStatus (Unit {0})
  check_parameters key = do
    prime ← calls verification_failed (is_prime key.n)
    fail_if prime (zkp verification_failed)
    coprime ← or_else verification_failed (is_coprime_fast bn key.n key.t)
    fail_if (not coprime) (zkp verification_failed)

  -- The body of the verifier, from the checks of the parameters on.
  unfoldable pub check_proof : PedersenPublic → List ℕ → List ℕ → Action W ParamStatus (Unit {0})
  check_proof key aad buffer = do
    check_parameters key
    mont ← init_mont mx key
    proof ← map_err from_codec (deserialize_param_zkp bn mx key.n buffer)
    seed ← or_else unknown_error (generate_zkp_seed bn mx sha malloc key proof aad)
    rng ← or_else verification_failed (drng_new sha512 malloc (some seed) true)
    verify_pairs bn mx sha512 rng_address e_address key mont proof rng

  -- The status is that of a success while `t_pow_z` is taken from the context: where that fails, the
  -- proof is accepted.
  unfoldable pub param_zkp_verify :
      Option PedersenPublic
      → Option (List ℕ)
      → Option (List ℕ)
      → ℕ
      → Action W ParamStatus (Unit {0})
  param_zkp_verify (some key) (some (m ∷ aad)) (some buffer) proof_len = do
    fail_if (not (proof_len == serialized_size bn mx key)) (zkp invalid_parameter)
    calls out_of_memory ctx_new
    init_param_zkp bn statistical_security
    t_pow_z ← attempt get
    elim t_pow_z [ none ↦ pure tt | some u ↦ check_proof key (m ∷ aad) buffer ]
  param_zkp_verify _ _ _ _ = fail (zkp invalid_parameter)
