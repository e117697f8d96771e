-- ===== src/Curve/Status.antt =====
-- include/crypto/elliptic_curve_algebra/elliptic_curve_algebra_status.h
pub data EcStatus : Type 0 where
  unknown_error invalid_parameter invalid_scalar invalid_point : EcStatus
  insufficient_buffer out_of_memory invalid_signature : EcStatus

-- `elliptic_curve256_type_t`
pub data CurveType : Type 0 where
  secp256k1 secp256r1 ed25519 stark : CurveType
