-- ===== src/Curve.antt =====
-- The elliptic curve algebra of include/crypto/elliptic_curve_algebra: its status, and the GFp curves
-- of src/common/crypto/GFp_curve_algebra in the modules below.
pub mod Status
pub mod Group
pub mod Points
pub mod Scalars
pub mod Reduce
pub mod Table
