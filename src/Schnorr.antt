-- ===== src/Schnorr.antt =====
-- src/common/crypto/zero_knowledge_proof/schnorr.c: the Schnorr proof of knowledge of a discrete
-- logarithm, over the table of curve operations and SHA256. NULL is `none`, and `false` for a pointer
-- to a result.
pub mod Completeness
pub mod Randomness
mod Tests
use audit_mpc_lib.Common.{
  ℕ, zero, suc, Bool, true, false, Option, none, some, List, [], ◌∷◌, ◌++◌, if◌then◌else◌, ◌==◌,
  Action, pure, fail, map_err, ◌>>=◌, ◌>>◌, replicate, from_bytes,
}
use audit_mpc_lib.Common.Sha.{Sha256}
use audit_mpc_lib.Algebra.{Algebra}
use audit_mpc_lib.Curve.Status.{EcStatus}
use audit_mpc_lib.Curve.Status
use audit_mpc_lib.Zkp.{
  ZkpStatus, unknown_error, invalid_parameter, verification_failed, out_of_memory,
}

abbrev pub from_elliptic_curve_algebra_status : EcStatus → ZkpStatus
from_elliptic_curve_algebra_status Status.invalid_parameter = invalid_parameter
from_elliptic_curve_algebra_status Status.invalid_point = invalid_parameter
from_elliptic_curve_algebra_status Status.invalid_scalar = invalid_parameter
from_elliptic_curve_algebra_status Status.out_of_memory = out_of_memory
from_elliptic_curve_algebra_status Status.invalid_signature = verification_failed
from_elliptic_curve_algebra_status Status.insufficient_buffer = unknown_error
from_elliptic_curve_algebra_status Status.unknown_error = unknown_error

-- `schnorr_zkp_t`
pub record SchnorrZkp : Type 0 where
  pub r : List ℕ
  pub s : List ℕ

-- `is_zero`: the four 64-bit words of a scalar, up to the first that is not zero.
unfoldable pub is_zero : List ℕ → Bool
unfolding from_bytes
is_zero (a ∷ b ∷ c ∷ d ∷ e ∷ f ∷ g ∷ h ∷ s) =
    let rest = is_zero s in
    if from_bytes 0 (a ∷ b ∷ c ∷ d ∷ e ∷ f ∷ g ∷ h ∷ []) == 0 then rest else false
is_zero _ = true

-- The scalar 1.
abbrev pub one : List ℕ
one = replicate 31 0 ++ (1 ∷ [])

abbrev pub calls : {W A : Type 0} → Action W EcStatus A → Action W ZkpStatus A
calls m = map_err from_elliptic_curve_algebra_status m

abbrev pub pick_k : {W : Type 0} → Algebra W → Option (List ℕ) → Action W ZkpStatus (List ℕ)
pick_k alg (some randomness) = pure randomness
pick_k alg none = calls alg.rand

module _ (sha : Sha256) where
  open sha use {init, update, final}

  -- SHA256 over the prover, the commitment and the public point.
  unfoldable pub challenge : List ℕ → List ℕ → List ℕ → List ℕ
  challenge prover_id r public_data = final (update (update (update init prover_id) r) public_data)

module _ {W : Type 0} (sha : Sha256) where
  unfoldable pub schnorr_zkp_generate_impl :
      Algebra W → List ℕ → List ℕ → List ℕ → Option (List ℕ) → Action W ZkpStatus SchnorrZkp
  schnorr_zkp_generate_impl alg prover_id secret public_data randomness = do
    k ← pick_k alg randomness
    r ← calls (alg.generator_mul k)
    c ← calls (alg.mul_scalars secret (challenge sha prover_id r public_data))
    s ← calls (alg.sub_scalars k c)
    pure (record { r = r; s = s })

  unfoldable pub schnorr_zkp_generate :
      Option (Algebra W)
      → Option (List ℕ)
      → Option (List ℕ)
      → Option (List ℕ)
      → Bool
      → Action W ZkpStatus SchnorrZkp
  schnorr_zkp_generate (some alg) (some (b ∷ bs)) (some secret) (some public_data) true =
      schnorr_zkp_generate_impl alg (b ∷ bs) secret public_data none
  schnorr_zkp_generate _ _ _ _ _ = fail invalid_parameter

  -- Returns the public point and the proof.
  unfoldable pub schnorr_zkp_generate_for_data :
      Option (Algebra W)
      → Option (List ℕ)
      → Option (List ℕ)
      → Bool
      → Bool
      → Action W ZkpStatus (List ℕ × SchnorrZkp)
  schnorr_zkp_generate_for_data (some alg) (some (b ∷ bs)) (some (x ∷ secret)) true true = do
    point ← calls (alg.generator_mul_data (x ∷ secret))
    proof ← schnorr_zkp_generate_impl alg (b ∷ bs) (x ∷ secret) point none
    pure (point, proof)
  schnorr_zkp_generate_for_data _ _ _ _ _ = fail invalid_parameter

  unfoldable pub schnorr_zkp_generate_with_custom_randomness :
      Option (Algebra W)
      → Option (List ℕ)
      → Option (List ℕ)
      → Option (List ℕ)
      → Option (List ℕ)
      → Bool
      → Action W ZkpStatus SchnorrZkp
  schnorr_zkp_generate_with_custom_randomness (some alg) (some (b ∷ bs)) (some secret)
        (some public_data) (some randomness) true =
      if is_zero randomness
      then fail invalid_parameter
      else schnorr_zkp_generate_impl alg (b ∷ bs) secret public_data (some randomness)
  schnorr_zkp_generate_with_custom_randomness _ _ _ _ _ _ = fail invalid_parameter

  unfoldable pub schnorr_zkp_verify :
      Option (Algebra W)
      → Option (List ℕ)
      → Option (List ℕ)
      → Option SchnorrZkp
      → Action W ZkpStatus (Unit {0})
  schnorr_zkp_verify (some alg) (some (b ∷ bs)) (some public_data) (some proof) = do
    point0 ← calls (alg.point_mul public_data (challenge sha (b ∷ bs) proof.r public_data))
    point1 ← calls (alg.generator_mul proof.s)
    res ← calls (alg.verify_linear_combination proof.r (point0 ∷ point1 ∷ []) (one ∷ one ∷ []))
    if res then pure tt else fail verification_failed
  schnorr_zkp_verify _ _ _ _ = fail invalid_parameter
