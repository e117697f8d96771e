-- ===== src/Curve/Table.antt =====
-- The table of operations that GFp_curve_algebra.c fills: each checks that the context is one of its
-- three curves, and calls the function above it.
pub mod Laws
mod Tests
use audit_mpc_lib.Common.{ℕ, Bool, true, false, List, [], some, Action, Call, fail, if◌then◌else◌}
use audit_mpc_lib.Bignum.{Bignum}
use audit_mpc_lib.Algebra.{Algebra}
use audit_mpc_lib.Curve.Group.{EcGroup}
use audit_mpc_lib.Curve.Status.{
  EcStatus, invalid_parameter, CurveType, secp256k1, secp256r1, stark, ed25519,
}
use audit_mpc_lib.Curve.Scalars.{add_scalars, sub_scalars, mul_scalars, rand}
use audit_mpc_lib.Curve.Points.{
  generator_mul_data, generator_mul, verify_linear_combination, add_points, point_mul,
}
use audit_mpc_lib.Curve.Reduce.{secp256k1_field, secp256r1_field, stark_field}

abbrev pub is_gfp : CurveType → Bool
is_gfp secp256k1 = true
is_gfp secp256r1 = true
is_gfp stark = true
is_gfp ed25519 = false

-- `secp256k1_order`, `secp256r1_order` and `stark_order`
abbrev pub order_bytes : CurveType → List ℕ
order_bytes secp256k1 = secp256k1_field
order_bytes secp256r1 = secp256r1_field
order_bytes stark = stark_field
order_bytes ed25519 = []

unfoldable pub guarded : {W A : Type 0} → CurveType → Action W EcStatus A → Action W EcStatus A
guarded curve run = if is_gfp curve then run else fail invalid_parameter

-- `order` is EC_GROUP_get0_order of the curve.
abbrev pub gfp_algebra :
    {W : Type 0} → Bignum W → Call W (Unit {0}) → EcGroup W → CurveType → ℕ → Algebra W
gfp_algebra bn calloc ec curve order = record {
  order = order_bytes curve;
  order_internal = order;
  generator_mul_data = λ s. guarded curve (generator_mul_data bn calloc ec true (some s) true);
  verify_linear_combination = λ p ps ss.
      guarded curve (verify_linear_combination bn calloc ec true (some p) (some ps) (some ss) true);
  generator_mul = λ s. guarded curve (generator_mul bn calloc ec true true (some s));
  add_points = λ p r. guarded curve (add_points bn calloc ec true true (some p) (some r));
  point_mul = λ p s. guarded curve (point_mul bn calloc ec true true (some p) (some s));
  add_scalars = λ a b.
      guarded curve (add_scalars bn (some (record { order = order })) true (some a) (some b));
  sub_scalars = λ a b.
      guarded curve (sub_scalars bn (some (record { order = order })) true (some a) (some b));
  mul_scalars = λ a b.
      guarded curve (mul_scalars bn (some (record { order = order })) true (some a) (some b));
  rand = guarded curve (rand bn (some (record { order = order })) true);
}
