-- ===== src/Curve/Table/Tests.antt =====
-- The table of secp256k1 over a group with that many points.
use audit_mpc_lib.Common.{ℕ, ◌%◌, refl, some, Call, from_bytes, arith}
use audit_mpc_lib.Bignum.Model.{working, working-Documented}
use audit_mpc_lib.Algebra.{AlgebraLaws}
use audit_mpc_lib.Curve.Group.Model.{cyclic, cyclic_octets, cyclic-GroupLaws}
use audit_mpc_lib.Curve.Status.{secp256k1}
use audit_mpc_lib.Curve.Scalars.Arithmetic.{Encodes}
use audit_mpc_lib.Curve.Points.{to_buffer}
use audit_mpc_lib.Curve.Table.{gfp_algebra, order_bytes}
use audit_mpc_lib.Curve.Table.Laws.{gfp_algebra-AlgebraLaws}

abbrev n : ℕ
n = 0xfffffffffffffffffffffffffffffffebaaedce6af48a03bbfd25e8cd0364141

abbrev calloc : Call (Unit {0}) (Unit {0})
calloc w = (some tt, w)

order_lem : Encodes n (order_bytes secp256k1)
unfolding from_bytes
order_lem = (refl, refl)

gfp_algebra-AlgebraLaws_example :
    AlgebraLaws
      (Unit {0})
      (gfp_algebra working calloc (cyclic n) secp256k1 n)
      n
      (λ k. to_buffer (cyclic_octets (k % n)))
gfp_algebra-AlgebraLaws_example =
    gfp_algebra-AlgebraLaws (Unit {0}) working working-Documented calloc (λ w. tt) (cyclic n) n
      (λ k. k % n) cyclic_octets (cyclic-GroupLaws n (omega arith) (omega arith)) secp256k1 refl
      order_lem (omega arith)
