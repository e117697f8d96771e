-- ===== src/Schnorr/Tests.antt =====
-- The Schnorr proof over the exponents modulo the order of secp256k1, with a stand-in for SHA256.
use audit_mpc_lib.Common.{
  ◌+◌, ◌*◌, ◌%◌, refl, true, some, [], ◌∷◌, Ensures, DecidesBy, from_bytes, ◌==◌, arith,
}
use audit_mpc_lib.Algebra.Model.{n, cyclic_algebra, code, cyclic_algebra-AlgebraLaws, fake_sha}
use audit_mpc_lib.Zkp.{verification_failed}
use audit_mpc_lib.Schnorr.{schnorr_zkp_generate, schnorr_zkp_verify}
use audit_mpc_lib.Schnorr.Completeness.{number, schnorr_zkp_verify_lem, schnorr_zkp_generate-verify}

schnorr_zkp_verify_lem_example :
    DecidesBy
      (Unit {0})
      verification_failed
      ((5
              * number
                  (Unit {0})
                  cyclic_algebra
                  n
                  code
                  cyclic_algebra-AlgebraLaws
                  fake_sha
                  (7 ∷ [])
                  (code 3)
                  (code 5)
            + from_bytes 0 (4 ∷ []))
          % n
        == 3 % n)
      (schnorr_zkp_verify fake_sha
        (some cyclic_algebra)
        (some (7 ∷ []))
        (some (code 5))
        (some (record { r = code 3; s = 4 ∷ [] })))
schnorr_zkp_verify_lem_example =
    schnorr_zkp_verify_lem (Unit {0}) cyclic_algebra n code cyclic_algebra-AlgebraLaws fake_sha 7 []
      5 3 (record { r = code 3; s = 4 ∷ [] }) refl (omega arith)

schnorr_zkp_generate-verify_example :
    Ensures
      (Unit {0})
      (λ proof.
        Ensures
          (Unit {0})
          (λ _. Unit {0})
          (schnorr_zkp_verify fake_sha
            (some cyclic_algebra)
            (some (7 ∷ []))
            (some (code (from_bytes 0 (5 ∷ []))))
            (some proof)))
      (schnorr_zkp_generate fake_sha
        (some cyclic_algebra)
        (some (7 ∷ []))
        (some (5 ∷ []))
        (some (code (from_bytes 0 (5 ∷ []))))
        true)
schnorr_zkp_generate-verify_example =
    schnorr_zkp_generate-verify (Unit {0}) cyclic_algebra n code cyclic_algebra-AlgebraLaws fake_sha
      7 [] (5 ∷ []) (omega arith)
