-- ===== src/Curve/Points.antt =====
-- The point functions of GFp_curve_algebra.c over OpenSSL's EC_POINT. A context is its curve; NULL is
-- `none`, and `false` for a result pointer. A call of `calloc` and the like is one more call that may
-- fail.
pub mod Arithmetic
mod Tests
use audit_mpc_lib.Common.{
  ℕ, zero, ◌-◌, Bool, true, false, not, Option, none, some, List, [], ◌∷◌, ◌++◌, if◌then◌else◌,
  Action, Call, pure, fail, try, ◌>>=◌, ◌>>◌, map_err, length, replicate, bytes_eq,
}
use audit_mpc_lib.Bignum.{Bignum}
use audit_mpc_lib.Curve.Group.{
  EcGroup, OpensslError, invalid_encoding, invalid_compressed_point, malloc_failure, other,
}
use audit_mpc_lib.Curve.Status.{
  EcStatus, unknown_error, invalid_parameter, invalid_point, out_of_memory,
}

-- `sizeof(elliptic_curve256_point_t)`
abbrev pub point_size : ℕ
point_size = 33

-- `SIZEOF_POINT`: what is read of a point.
abbrev pub sized : List ℕ → List ℕ
sized (zero ∷ s) = 0 ∷ []
sized s = s

-- The output buffer: it is zeroed, and the octets are written to its front.
abbrev pub to_buffer : List ℕ → List ℕ
to_buffer s = s ++ replicate (point_size - length s) 0

abbrev pub from_openssl_error : OpensslError → EcStatus
from_openssl_error e = elim e.reason [
  | invalid_encoding ↦ if e.is_ec_lib then invalid_point else unknown_error
  | invalid_compressed_point ↦ if e.is_ec_lib then invalid_point else unknown_error
  | malloc_failure ↦ out_of_memory
  | other ↦ unknown_error
]

module _ {W : Type 0} (bn : Bignum W) (calloc : Call W (Unit {0})) (ec : EcGroup W) where
  open bn use {ctx_new, get, bin2bn}
  open ec use {
    Point, point_new, oct2point, point2oct, mul_generator, mul_point, add, points_mul, cmp,
  }

  unfoldable pub read_point : List ℕ → Action W EcStatus Point
  read_point p = map_err from_openssl_error (oct2point (sized p))

  unfoldable pub write_point : Point → Action W EcStatus (List ℕ)
  write_point p = do s ← try unknown_error (point2oct p); pure (to_buffer s)

  unfoldable pub generator_mul_data : Bool → Option (List ℕ) → Bool → Action W EcStatus (List ℕ)
  generator_mul_data true (some (b ∷ bs)) true = do
    try out_of_memory point_new
    try out_of_memory ctx_new
    try out_of_memory get
    exp ← try out_of_memory (bin2bn (b ∷ bs))
    p ← try unknown_error (mul_generator exp)
    write_point p
  generator_mul_data _ _ _ = fail invalid_parameter

  -- The result pointer is checked first; `*result` is the Boolean.
  unfoldable pub verify : Bool → Option (List ℕ) → Option (List ℕ) → Bool → Action W EcStatus Bool
  verify ctx data_bytes (some p) true = do
    local_point ← generator_mul_data ctx data_bytes true
    pure (bytes_eq local_point p)
  verify ctx data_bytes _ _ = fail invalid_parameter

  unfoldable pub sum_loop : Point → List (List ℕ) → Action W EcStatus Point
  sum_loop point [] = pure point
  sum_loop point (p ∷ ps) = do
    tmp ← read_point p
    next ← try unknown_error (add point tmp)
    sum_loop next ps

  unfoldable pub verify_sum :
      Bool → Option (List ℕ) → Option (List (List ℕ)) → Bool → Action W EcStatus Bool
  verify_sum true (some sum_point) (some (p ∷ ps)) true = do
    try out_of_memory point_new
    point ← try out_of_memory point_new
    try out_of_memory point_new
    try out_of_memory ctx_new
    p_proof ← read_point sum_point
    total ← sum_loop point (p ∷ ps)
    try unknown_error (cmp total p_proof)
  verify_sum _ _ _ _ = fail invalid_parameter

  unfoldable pub read_points : List (List ℕ) → Action W EcStatus (List Point)
  read_points [] = pure []
  read_points (p ∷ ps) = do
    try out_of_memory point_new
    point ← read_point p
    points ← read_points ps
    pure (point ∷ points)

  unfoldable pub read_scalars : List (List ℕ) → Action W EcStatus (List ℕ)
  read_scalars [] = pure []
  read_scalars (c ∷ cs) = do
    try out_of_memory get
    coeff ← try out_of_memory (bin2bn c)
    coeffs ← read_scalars cs
    pure (coeff ∷ coeffs)

  -- A failed comparison leaves the status at its first value.
  unfoldable pub verify_linear_combination :
      Bool
      → Option (List ℕ)
      → Option (List (List ℕ))
      → Option (List (List ℕ))
      → Bool
      → Action W EcStatus Bool
  verify_linear_combination true (some sum_point) (some (p ∷ ps)) (some coefficients) true = do
    try out_of_memory ctx_new
    try out_of_memory point_new
    p_proof ← read_point sum_point
    try out_of_memory calloc
    points ← read_points (p ∷ ps)
    try out_of_memory calloc
    coeff ← read_scalars coefficients
    try out_of_memory get
    try out_of_memory point_new
    tmp ← try unknown_error (points_mul points coeff)
    try out_of_memory (cmp tmp p_proof)
  verify_linear_combination _ _ _ _ _ = fail invalid_parameter

  unfoldable pub generator_mul : Bool → Bool → Option (List ℕ) → Action W EcStatus (List ℕ)
  generator_mul ctx res none = fail invalid_parameter
  generator_mul ctx res (some exp) = generator_mul_data ctx (some exp) res

  unfoldable pub add_points :
      Bool → Bool → Option (List ℕ) → Option (List ℕ) → Action W EcStatus (List ℕ)
  add_points true true (some p1) (some p2) = do
    try out_of_memory point_new
    try out_of_memory point_new
    try out_of_memory ctx_new
    p_p1 ← read_point p1
    p_p2 ← read_point p2
    p ← try unknown_error (add p_p1 p_p2)
    write_point p
  add_points _ _ _ _ = fail invalid_parameter

  unfoldable pub point_mul :
      Bool → Bool → Option (List ℕ) → Option (List ℕ) → Action W EcStatus (List ℕ)
  point_mul true true (some p) (some exp) = do
    try out_of_memory point_new
    try out_of_memory ctx_new
    try out_of_memory get
    bn_exp ← try out_of_memory (bin2bn exp)
    p_p ← read_point p
    r ← try unknown_error (mul_point p_p bn_exp)
    write_point r
  point_mul _ _ _ _ = fail invalid_parameter
