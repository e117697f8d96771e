-- ===== src/Curve/Points/Tests.antt =====
-- The point functions on the group of 13 points.
use audit_mpc_lib.Common.{ℕ, arith, ◌%◌, ◌≡◌, refl, true, some, List, [], ◌∷◌, Call, Ensures, ◌==◌}
use audit_mpc_lib.Bignum.Model.{working, working-Documented}
use audit_mpc_lib.Curve.Group.{dot, GroupLaws}
use audit_mpc_lib.Curve.Group.Model.{cyclic, cyclic_octets, cyclic-GroupLaws}
use audit_mpc_lib.Curve.Points.{to_buffer, verify_linear_combination}
use audit_mpc_lib.Curve.Points.Arithmetic.{values, verify_linear_combination_lem}

abbrev calloc : Call (Unit {0}) (Unit {0})
calloc w = (some tt, w)

laws : GroupLaws (Unit {0}) (cyclic 13) 13 (λ k. k % 13) cyclic_octets
laws = cyclic-GroupLaws 13 (omega arith) (omega arith)

abbrev code : ℕ → List ℕ
code k = to_buffer (cyclic_octets (k % 13))

verify_linear_combination_lem_example :
    Ensures
      (Unit {0})
      (λ r. r ≡ (dot (5 ∷ 9 ∷ []) (values ((2 ∷ []) ∷ (3 ∷ []) ∷ [])) % 13 == 11 % 13))
      (verify_linear_combination working calloc
        (cyclic 13)
        true
        (some (code 11))
        (some (code 5 ∷ code 9 ∷ []))
        (some ((2 ∷ []) ∷ (3 ∷ []) ∷ []))
        true)
verify_linear_combination_lem_example =
    verify_linear_combination_lem (Unit {0}) working working-Documented calloc (λ w. tt) (cyclic 13)
      13 (λ k. k % 13) cyclic_octets laws 11 5 (9 ∷ []) ((2 ∷ []) ∷ (3 ∷ []) ∷ []) refl
