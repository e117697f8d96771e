-- ===== src/Algebra/Model.antt =====
-- The table of secp256k1 over the group of the exponents modulo its order, and a stand-in for SHA256:
-- what the interface of the protocols asks for can be met.
use audit_mpc_lib.Common.{ℕ, ◌%◌, refl, some, List, [], ◌++◌, Call, arith, append_assoc, from_bytes}
use audit_mpc_lib.Common.Sha.{Sha256}
use audit_mpc_lib.Bignum.Model.{working, working-Documented, to_bytes, length-to_bytes}
use audit_mpc_lib.Algebra.{Algebra, AlgebraLaws}
use audit_mpc_lib.Curve.Group.Model.{cyclic, cyclic_octets, cyclic-GroupLaws}
use audit_mpc_lib.Curve.Status.{secp256k1}
use audit_mpc_lib.Curve.Scalars.Arithmetic.{Encodes}
use audit_mpc_lib.Curve.Points.{to_buffer}
use audit_mpc_lib.Curve.Table.{gfp_algebra, order_bytes}
use audit_mpc_lib.Curve.Table.Laws.{gfp_algebra-AlgebraLaws}

abbrev calloc : Call (Unit {0}) (Unit {0})
calloc w = (some tt, w)

abbrev pub n : ℕ
n = 0xfffffffffffffffffffffffffffffffebaaedce6af48a03bbfd25e8cd0364141

order_lem : Encodes n (order_bytes secp256k1)
unfolding from_bytes
order_lem = (refl, refl)

abbrev pub cyclic_algebra : Algebra (Unit {0})
cyclic_algebra = gfp_algebra working calloc (cyclic n) secp256k1 n

abbrev pub code : ℕ → List ℕ
code k = to_buffer (cyclic_octets (k % n))

pub cyclic_algebra-AlgebraLaws : AlgebraLaws (Unit {0}) cyclic_algebra n code
cyclic_algebra-AlgebraLaws =
    gfp_algebra-AlgebraLaws (Unit {0}) working working-Documented calloc (λ w. tt) (cyclic n) n
      (λ k. k % n) cyclic_octets (cyclic-GroupLaws n (omega arith) (omega arith)) secp256k1 refl
      order_lem (omega arith)

abbrev pub fake_sha : Sha256
fake_sha = record {
  Ctx = List ℕ;
  init = [];
  update = λ c m. c ++ m;
  final = λ c. to_bytes 32 (from_bytes 0 c);
  update-update = λ c a b. append_assoc c a b;
  final_len = λ c. length-to_bytes 32 (from_bytes 0 c);
}
