-- ===== src/Vss/Tests.antt =====
-- Sharings and the check of a share over the exponents modulo the order of secp256k1.
use audit_mpc_lib.Common.{
  Ensures, from_bytes, refl, true, ◌%◌, some, [], ◌∷◌, Call, DecidesBy, ◌==◌, arith,
}
use audit_mpc_lib.Bignum.Model.{working, working-Documented}
use audit_mpc_lib.Algebra.Model.{n, cyclic_algebra, code, cyclic_algebra-AlgebraLaws}
use audit_mpc_lib.Vss.{verify_share, invalid_share, VerifiableSecretSharing}
use audit_mpc_lib.Vss.Split.{draw, ids_valid, member, split_with_custom_ids}
use audit_mpc_lib.Vss.Sharing.{IsSharing, DrawsEnd, split_with_custom_ids_lem}
use audit_mpc_lib.Vss.Honest.{IsSharing-verify_share}
use audit_mpc_lib.Vss.Shares.{eval, verify_share_lem}

abbrev calloc : Call (Unit {0}) (Unit {0})
calloc w = (some tt, w)

-- 5 + 7 x at x = 2
verify_share_lem_example : DecidesBy (Unit {0}) invalid_share (eval (5 ∷ 7 ∷ []) 2 % n == 19 % n) (
    verify_share working calloc
      (some cyclic_algebra)
      2
      (some (code 19))
      (some (code 5 ∷ code 7 ∷ [])))
verify_share_lem_example =
    verify_share_lem (Unit {0}) working working-Documented calloc (λ w. tt) cyclic_algebra n code
      cyclic_algebra-AlgebraLaws 2 19 5 (7 ∷ []) (omega arith)

-- A random number is never zero here: one draw is enough.
drawn : DrawsEnd (Unit {0}) working calloc 1 n
unfolding draw
drawn w e = cc

split_with_custom_ids_lem_example :
    Ensures (Unit {0}) (IsSharing n code (from_bytes 0 (9 ∷ [])) (4 ∷ 6 ∷ 11 ∷ []) 2 3) (
      split_with_custom_ids working calloc 1
        (some cyclic_algebra)
        (some (9 ∷ []))
        2
        3
        (some (4 ∷ 6 ∷ 11 ∷ []))
        true)
unfolding ids_valid member from_bytes
split_with_custom_ids_lem_example =
    split_with_custom_ids_lem (Unit {0}) working working-Documented calloc (λ w. tt) cyclic_algebra
      n code cyclic_algebra-AlgebraLaws 1 drawn 9 [] 2 3 (4 ∷ 6 ∷ 11 ∷ []) (omega arith)
      (omega arith) refl (omega arith)

-- The secret 5 and the coefficient 7, with the shares of the ids 2 and 3.
abbrev two_shares : VerifiableSecretSharing
two_shares = record {
  ids = 2 ∷ 3 ∷ [];
  shares = (19 ∷ []) ∷ (26 ∷ []) ∷ [];
  proofs = code 19 ∷ code 26 ∷ [];
  coefficient_proofs = code 5 ∷ code 7 ∷ [];
  num_shares = 2;
  threshold = 2;
}

two_shares-IsSharing : IsSharing n code 5 (2 ∷ 3 ∷ []) 2 2 two_shares
unfolding from_bytes eval
two_shares-IsSharing = record {
  coefficients = 7 ∷ [];
  count = refl;
  range = ((omega arith, omega arith), tt);
  coefficient_points = refl;
  made = (19 ∷ [], code 19) ∷ (26 ∷ [], code 26) ∷ [];
  made_shares = refl;
  made_points = refl;
  values = (refl, refl, (refl, refl, tt));
  ids_lem = refl;
  threshold_lem = refl;
  num_shares_lem = refl;
}

IsSharing-verify_share_example :
    Ensures
      (Unit {0})
      (λ _. Unit {0})
      (verify_share working calloc
        (some cyclic_algebra)
        3
        (some (code 26))
        (some (code 5 ∷ code 7 ∷ [])))
IsSharing-verify_share_example =
    IsSharing-verify_share (Unit {0}) working working-Documented calloc (λ w. tt) cyclic_algebra n
      code cyclic_algebra-AlgebraLaws 5 2 2 (2 ∷ 3 ∷ []) two_shares 1 3 (code 26) (omega arith)
      two_shares-IsSharing refl refl
