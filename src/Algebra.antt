-- ===== src/Algebra.antt =====
-- `elliptic_curve256_algebra_ctx_t` of include/crypto/elliptic_curve_algebra/elliptic_curve256_algebra.h:
-- the operations of the table that the modelled protocols call (release, verify, inverse, reduce and the
-- constants of the point formats are not among them), and the laws that they rely on. Points are in the
-- code's encoding, 33 bytes, and scalars are big-endian bytes.
pub mod Model
use audit_mpc_lib.Common.{
  ℕ, ◌+◌, ◌-◌, ◌*◌, ◌%◌, ◌^◌, ◌≤◌, ◌<◌, ◌≡◌, Bool, List, Action, Ensures, length, from_bytes, ◌==◌,
}
use audit_mpc_lib.Curve.Status.{EcStatus}
use audit_mpc_lib.Curve.Group.{dot, each}
use audit_mpc_lib.Curve.Points.Arithmetic.{values}
use audit_mpc_lib.Curve.Scalars.Arithmetic.{Encodes}

pub record Algebra (W : Type 0) : Type 0 where
  pub order : List ℕ
  -- `order_internal`, the same number as a BIGNUM
  pub order_internal : ℕ
  pub generator_mul_data : List ℕ → Action W EcStatus (List ℕ)
  pub verify_linear_combination : List ℕ → List (List ℕ) → List (List ℕ) → Action W EcStatus Bool
  pub generator_mul : List ℕ → Action W EcStatus (List ℕ)
  pub add_points : List ℕ → List ℕ → Action W EcStatus (List ℕ)
  pub point_mul : List ℕ → List ℕ → Action W EcStatus (List ℕ)
  pub add_scalars : List ℕ → List ℕ → Action W EcStatus (List ℕ)
  pub sub_scalars : List ℕ → List ℕ → Action W EcStatus (List ℕ)
  pub mul_scalars : List ℕ → List ℕ → Action W EcStatus (List ℕ)
  pub rand : Action W EcStatus (List ℕ)

-- A group of order `q` whose k-th multiple of the generator is the point `encoded k`. `R` says that
-- memory and randomness do not run out.
pub record AlgebraLaws {W : Type 0} (R : Type 0) (alg : Algebra W) (q : ℕ) (encoded : ℕ → List ℕ)
    : Type 0 where
  pub order_pos : 0 < q
  pub order_small : q ≤ 256 ^ 32
  pub order_lem : Encodes q alg.order
  pub order_internal_lem : alg.order_internal ≡ q
  pub encoded_lem : (j k : ℕ) → encoded j ≡ encoded k → j % q ≡ k % q
  pub encoded-mod : (k : ℕ) → encoded k ≡ encoded (k % q)
  pub generator_mul_data_lem :
      (s : List ℕ)
      → 1 ≤ length s
      → Ensures R (λ p. p ≡ encoded (from_bytes 0 s)) (alg.generator_mul_data s)
  pub generator_mul_lem :
      (s : List ℕ)
      → 1 ≤ length s
      → Ensures R (λ p. p ≡ encoded (from_bytes 0 s)) (alg.generator_mul s)
  pub verify_linear_combination_lem :
      (k : ℕ) (ks : List ℕ) (ss : List (List ℕ))
      → 1 ≤ length ks
      → length ks ≡ length ss
      → Ensures R
          (λ r. r ≡ (dot ks (values ss) % q == k % q))
          (alg.verify_linear_combination (encoded k) (each encoded ks) ss)
  pub add_points_lem :
      (j k : ℕ) → Ensures R (λ p. p ≡ encoded (j + k)) (alg.add_points (encoded j) (encoded k))
  pub point_mul_lem :
      (k : ℕ) (s : List ℕ)
      → Ensures R (λ p. p ≡ encoded (k * from_bytes 0 s)) (alg.point_mul (encoded k) s)
  pub add_scalars_lem :
      (a b : List ℕ)
      → 1 ≤ length a
      → 1 ≤ length b
      → Ensures R (Encodes ((from_bytes 0 a + from_bytes 0 b) % q)) (alg.add_scalars a b)
  pub sub_scalars_lem :
      (a b : List ℕ)
      → 1 ≤ length a
      → 1 ≤ length b
      → Ensures R
          (Encodes ((from_bytes 0 a % q + (q - from_bytes 0 b % q)) % q))
          (alg.sub_scalars a b)
  pub mul_scalars_lem :
      (a b : List ℕ)
      → 1 ≤ length a
      → 1 ≤ length b
      → Ensures R (Encodes (from_bytes 0 a * from_bytes 0 b % q)) (alg.mul_scalars a b)
  pub rand_lem : Ensures R (λ s. (length s ≡ 32) × (from_bytes 0 s < q)) alg.rand
