-- ===== src/Curve/Reduce/Tests.antt =====
-- The range tests at the group orders themselves.
use audit_mpc_lib.Common.{
  ◌≡◌, refl, true, some, if◌then◌else◌, err, from_bytes, ltb, arith, IsByte, All,
}
use audit_mpc_lib.Curve.Status.{invalid_scalar, secp256k1}
use audit_mpc_lib.Curve.Reduce.{secp256k1_field, secp256r1_field, in_field, ec_reduce}
use audit_mpc_lib.Curve.Reduce.Bounds.{in_field-ltb}

-- The order itself is out of range.
order_refused : ec_reduce (some secp256k1) true (some secp256k1_field) ≡ err invalid_scalar
unfolding ec_reduce in_field
order_refused = refl

k1_bytes : All IsByte secp256k1_field
k1_bytes = omega arith

r1_bytes : All IsByte secp256r1_field
r1_bytes = omega arith

in_field-ltb_example :
    in_field secp256r1_field secp256k1_field
    ≡ (if ltb (from_bytes 0 secp256r1_field) (from_bytes 0 secp256k1_field) then 1 else 0)
in_field-ltb_example = in_field-ltb secp256r1_field secp256k1_field refl refl r1_bytes k1_bytes
