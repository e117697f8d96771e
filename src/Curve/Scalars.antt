-- ===== src/Curve/Scalars.antt =====
-- The scalar functions of GFp_curve_algebra.c, over the group order of the curve
-- (`EC_GROUP_get0_order`) and OpenSSL's BIGNUM. NULL is `none`, and `false` for a result pointer.
pub mod Arithmetic
use audit_mpc_lib.Common.{
  ℕ, Bool, true, false, ◌&&◌, Option, none, some, List, [], ◌∷◌, if◌then◌else◌, Action, Call, pure,
  fail, try, ◌>>=◌, ◌>>◌,
}
use audit_mpc_lib.Bignum.{Bignum}
use audit_mpc_lib.Curve.Status.{EcStatus, unknown_error, invalid_parameter, out_of_memory}

-- `sizeof(elliptic_curve256_scalar_t)`
abbrev pub scalar_size : ℕ
scalar_size = 32

-- `struct GFp_curve_algebra_ctx`: the order of its curve is all that these functions read.
pub record GfpCtx : Type 0 where
  pub order : ℕ

module _ {W : Type 0} (bn : Bignum W) where
  open bn use {ctx_new, get, bin2bn, bn2binpad, mod_add, mod_sub, mod_mul, mod_inverse, rand_range}

  -- The body that the three binary functions have in common, around their BN_mod_… call.
  unfoldable pub binary :
      (ℕ → ℕ → ℕ → Call W ℕ)
      → Option GfpCtx
      → Bool
      → Option (List ℕ)
      → Option (List ℕ)
      → Action W EcStatus (List ℕ)
  binary op (some ctx) true (some (a ∷ xs)) (some (b ∷ ys)) = do
    try out_of_memory ctx_new
    try out_of_memory get
    bn_a ← try out_of_memory (bin2bn (a ∷ xs))
    try out_of_memory get
    bn_b ← try out_of_memory (bin2bn (b ∷ ys))
    r ← try unknown_error (op bn_a bn_b ctx.order)
    try unknown_error (bn2binpad r scalar_size)
  binary op _ _ _ _ = fail invalid_parameter

  unfoldable pub add_scalars :
      Option GfpCtx → Bool → Option (List ℕ) → Option (List ℕ) → Action W EcStatus (List ℕ)
  unfolding binary
  add_scalars = binary mod_add

  unfoldable pub sub_scalars :
      Option GfpCtx → Bool → Option (List ℕ) → Option (List ℕ) → Action W EcStatus (List ℕ)
  unfolding binary
  sub_scalars = binary mod_sub

  unfoldable pub mul_scalars :
      Option GfpCtx → Bool → Option (List ℕ) → Option (List ℕ) → Action W EcStatus (List ℕ)
  unfolding binary
  mul_scalars = binary mod_mul

  unfoldable pub inverse : Option GfpCtx → Bool → Option (List ℕ) → Action W EcStatus (List ℕ)
  inverse (some ctx) true (some val) = do
    try out_of_memory ctx_new
    try out_of_memory get
    bn_val ← try out_of_memory (bin2bn val)
    r ← try unknown_error (mod_inverse bn_val ctx.order)
    try unknown_error (bn2binpad r scalar_size)
  inverse _ _ _ = fail invalid_parameter

  unfoldable pub rand : Option GfpCtx → Bool → Action W EcStatus (List ℕ)
  rand (some ctx) true = do
    try out_of_memory get
    tmp ← try unknown_error (rand_range ctx.order)
    try unknown_error (bn2binpad tmp scalar_size)
  rand _ _ = fail invalid_parameter
