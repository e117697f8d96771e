-- ===== src/DhLog.antt =====
-- src/common/crypto/zero_knowledge_proof/diffie_hellman_log.c: the proof that a Diffie-Hellman
-- ciphertext hides a discrete logarithm, over the table of curve operations, SHA256 and the
-- deterministic generator. NULL is `none`, and `false` for a pointer to a result.
pub mod Compare
pub mod Challenge
pub mod Decision
pub mod Responses
pub mod Completeness
mod Tests
use Prim.Native.Nat.{compare, Ordering}
use audit_mpc_lib.Common.{
  ℕ, zero, suc, Bool, true, false, Option, none, some, List, [], ◌∷◌, fail_if, not, Result, ok, err,
  Action, Call, pure, fail, map_err, ◌>>=◌, ◌>>◌, from_bytes, bytes_eq,
}
use audit_mpc_lib.Common.Sha.{Sha256}
use audit_mpc_lib.Algebra.{Algebra}
use audit_mpc_lib.Curve.Status.{EcStatus}
use audit_mpc_lib.Curve.Status
use audit_mpc_lib.Drng.{Drng, drng_new, drng_read_deterministic_rand}
use audit_mpc_lib.Zkp.{
  ZkpStatus, unknown_error, invalid_parameter, verification_failed, out_of_memory,
}

-- `spinning` is the model's own: the draw of a challenge below the group order goes on.
pub data DhStatus : Type 0 where
  zkp : ZkpStatus → DhStatus
  spinning : DhStatus

-- `diffie_hellman_log_public_data_t`
pub record DhPublicData : Type 0 where
  pub a : List ℕ
  pub b : List ℕ
  pub c : List ℕ
  pub x : List ℕ

-- `diffie_hellman_log_zkp_t`
pub record DhLogZkp : Type 0 where
  pub d : List ℕ
  pub y : List ℕ
  pub v : List ℕ
  pub w : List ℕ
  pub z : List ℕ

-- `LOG_ZKP_SALT` with its final zero: the text `diffie hellman discrete log zkp`.
abbrev pub log_zkp_salt : List ℕ
log_zkp_salt =
    0x64 ∷ 0x69 ∷ 0x66 ∷ 0x66 ∷ 0x69 ∷ 0x65 ∷ 0x20 ∷ 0x68 ∷ 0x65 ∷ 0x6c ∷ 0x6c ∷ 0x6d ∷ 0x61 ∷ 0x6e
    ∷ 0x20 ∷ 0x64 ∷ 0x69 ∷ 0x73 ∷ 0x63 ∷ 0x72 ∷ 0x65 ∷ 0x74 ∷ 0x65 ∷ 0x20 ∷ 0x6c ∷ 0x6f ∷ 0x67
    ∷ 0x20 ∷ 0x7a ∷ 0x6b ∷ 0x70 ∷ 0 ∷ []

-- The 64-bit words of a scalar, after `bswap_64`.
unfoldable pub words64 : List ℕ → List ℕ
unfolding from_bytes
words64 (a ∷ b ∷ c ∷ d ∷ e ∷ f ∷ g ∷ h ∷ s) =
    from_bytes 0 (a ∷ b ∷ c ∷ d ∷ e ∷ f ∷ g ∷ h ∷ []) ∷ words64 s
words64 s = []

-- The first words that differ decide; `lt`, `eq` and `gt` are -1, 0 and 1.
unfoldable pub cmp_words : List ℕ → List ℕ → Ordering
cmp_words (x ∷ xs) (y ∷ ys) = elim (compare x y) [
  | Ordering.lt ↦ Ordering.lt
  | Ordering.gt ↦ Ordering.gt
  | Ordering.eq ↦ cmp_words xs ys
]
cmp_words _ _ = Ordering.eq

unfoldable pub cmp_uint256 : List ℕ → List ℕ → Ordering
unfolding cmp_words words64
cmp_uint256 a b = cmp_words (words64 a) (words64 b)

module _ (sha512 : List ℕ → List ℕ) (rng_address e_address : ℕ) where
  -- The `do … while` loop; `none` is the fuel's end. The generator and `*e` have addresses.
  unfoldable pub e_loop : ℕ → Drng → List ℕ → Option (Result ZkpStatus (List ℕ))
  e_loop zero rng q = none
  e_loop (suc fuel) rng q =
      elim (drng_read_deterministic_rand sha512 rng_address (some rng) (some e_address) 32) [
        | none ↦ none
        | some (err status) ↦ some (err unknown_error)
        | some (ok (e, rng')) ↦ elim (cmp_uint256 e q) [
          | Ordering.lt ↦ some (ok e)
          | Ordering.eq ↦ e_loop fuel rng' q
          | Ordering.gt ↦ e_loop fuel rng' q
        ]
      ]

-- The seed of the challenge.
module _ (sha : Sha256) where
  open sha use {Ctx, init, update, final}

  unfoldable pub e_seed :
      Option (List ℕ) → List ℕ → DhPublicData → List ℕ → List ℕ → List ℕ → List ℕ
  e_seed aad base public_data d y v =
      let salted = update init log_zkp_salt in
      let bound : Ctx = elim aad [ none ↦ salted | some m ↦ update salted m ] in
      final (
        update
          (update
            (update
              (update
                (update (update (update (update bound base) public_data.a) public_data.b)
                  public_data.c)
                public_data.x)
              d)
            y)
          v)

abbrev pub ended : {W A : Type 0} → Option (Result ZkpStatus A) → Action W DhStatus A
ended none = fail spinning
ended (some (err e)) = fail (zkp e)
ended (some (ok e)) = pure e

-- `from_elliptic_curve_status`
abbrev pub from_elliptic_curve_status : EcStatus → ZkpStatus
from_elliptic_curve_status Status.invalid_parameter = verification_failed
from_elliptic_curve_status Status.invalid_point = verification_failed
from_elliptic_curve_status Status.out_of_memory = out_of_memory
from_elliptic_curve_status Status.invalid_signature = verification_failed
from_elliptic_curve_status Status.insufficient_buffer = unknown_error
from_elliptic_curve_status Status.invalid_scalar = unknown_error
from_elliptic_curve_status Status.unknown_error = unknown_error

-- The prover answers every failure of the curve with an unknown error.
abbrev pub proving : {W A : Type 0} → Action W EcStatus A → Action W DhStatus A
proving m = map_err (λ _. zkp unknown_error) m

abbrev pub checking : {W A : Type 0} → Action W EcStatus A → Action W DhStatus A
checking m = map_err (λ e. zkp (from_elliptic_curve_status e)) m

module _ {W : Type 0} (sha : Sha256) (sha512 : List ℕ → List ℕ) (malloc : Call W (Unit {0}))
    (rng_address e_address fuel : ℕ) where
  unfoldable pub generate_e :
      Algebra W
      → Option (List ℕ)
      → List ℕ
      → DhPublicData
      → List ℕ
      → List ℕ
      → List ℕ
      → Action W DhStatus (List ℕ)
  generate_e alg aad base public_data d y v = do
    rng ←
        map_err (λ _. zkp out_of_memory)
          (drng_new sha512 malloc (some (e_seed sha aad base public_data d y v)) true)
    ended (e_loop sha512 rng_address e_address fuel rng alg.order)

  -- The challenge and the responses, once the commitments are made.
  abbrev pub respond :
      Algebra W
      → Option (List ℕ)
      → List ℕ
      → List ℕ
      → List ℕ
      → DhPublicData
      → List ℕ
      → List ℕ
      → List ℕ
      → List ℕ
      → List ℕ
      → Action W DhStatus DhLogZkp
  respond alg aad base secret b public_data d y point_d point_y point_v = do
    e ← generate_e alg aad base public_data point_d point_y point_v
    eb ← proving (alg.mul_scalars e b)
    z ← proving (alg.add_scalars eb d)
    ex ← proving (alg.mul_scalars e secret)
    w ← proving (alg.add_scalars ex y)
    pure (record { d = point_d; y = point_y; v = point_v; w = w; z = z })

  unfoldable pub dh_log_generate :
      Option (Algebra W)
      → Option (List ℕ)
      → Option (List ℕ)
      → Option (List ℕ)
      → Option (List ℕ)
      → Option (List ℕ)
      → Option DhPublicData
      → Bool
      → Action W DhStatus DhLogZkp
  dh_log_generate (some alg) (some (m ∷ aad)) (some base) (some secret) (some a) (some b)
        (some public_data) true =
      do
        d ← proving alg.rand
        y ← proving alg.rand
        point_d ← proving (alg.generator_mul d)
        point_y ← proving (alg.point_mul base y)
        ad ← proving (alg.mul_scalars a d)
        ad_y ← proving (alg.add_scalars ad y)
        point_v ← proving (alg.generator_mul ad_y)
        respond alg (some (m ∷ aad)) base secret b public_data d y point_d point_y point_v
  dh_log_generate _ _ _ _ _ _ _ _ = fail (zkp invalid_parameter)

  unfoldable pub dh_log_verify :
      Option (Algebra W)
      → Option (List ℕ)
      → Option (List ℕ)
      → Option DhPublicData
      → Option DhLogZkp
      → Action W DhStatus (Unit {0})
  dh_log_verify (some alg) (some (m ∷ aad)) (some base) (some public_data) (some proof) = do
    e ← generate_e alg (some (m ∷ aad)) base public_data proof.d proof.y proof.v
    zg ← checking (alg.generator_mul proof.z)
    eb ← checking (alg.point_mul public_data.b e)
    eb_d ← checking (alg.add_points eb proof.d)
    fail_if (not (bytes_eq zg eb_d)) (zkp verification_failed)
    wr ← checking (alg.point_mul base proof.w)
    ex ← checking (alg.point_mul public_data.x e)
    ex_y ← checking (alg.add_points ex proof.y)
    fail_if (not (bytes_eq wr ex_y)) (zkp verification_failed)
    za ← checking (alg.point_mul public_data.a proof.z)
    wg ← checking (alg.generator_mul proof.w)
    za_wg ← checking (alg.add_points za wg)
    ec ← checking (alg.point_mul public_data.c e)
    ec_v ← checking (alg.add_points ec proof.v)
    fail_if (not (bytes_eq za_wg ec_v)) (zkp verification_failed)
  dh_log_verify _ _ _ _ _ = fail (zkp invalid_parameter)
