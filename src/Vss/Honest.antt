-- ===== src/Vss/Honest.antt =====
-- Every share of a sharing passes the check of a share.
use audit_mpc_lib.Common.{
  ℕ, zero, suc, ◌≡◌, ◌<◌, refl, sym, ap, ◌∙◌, some, List, [], ◌∷◌, get_elem?, Call, Ensures,
  Documents, ==_iff, subst,
}
use audit_mpc_lib.Bignum.{Bignum, Documented}
use audit_mpc_lib.Algebra.{Algebra, AlgebraLaws}
use audit_mpc_lib.Curve.Group.{each}
use audit_mpc_lib.Vss.{VerifiableSecretSharing, verify_share}
use audit_mpc_lib.Vss.Split.{seconds}
use audit_mpc_lib.Vss.Shares.{eval, verify_share_lem}
use audit_mpc_lib.Vss.Shamir.{SharesOf}
use audit_mpc_lib.Vss.Sharing.{IsSharing}

point_at :
    (q : ℕ) (encoded : ℕ → List ℕ) (polynom ids : List ℕ) (made : List (List ℕ × List ℕ)) (i id : ℕ)
    (point : List ℕ)
    → SharesOf q encoded polynom ids made
    → get_elem? ids i ≡ some id
    → get_elem? (seconds made) i ≡ some point
    → point ≡ encoded (eval polynom id)
point_at q encoded polynom [] [] i id point h e p = cc
point_at q encoded polynom [] (m ∷ made) i id point h e p = absurd h
point_at q encoded polynom (x ∷ ids) [] i id point h e p = absurd h
point_at q encoded polynom (x ∷ ids) (m ∷ made) zero id point h e p =
    let q1 = h.1 in
    let x_id : x ≡ id = cc in
    let same : m.1 ≡ point = cc in sym same ∙ q1 ∙ ap (λ k. encoded (eval polynom k)) x_id
point_at q encoded polynom (x ∷ ids) (m ∷ made) (suc i) id point h e p =
    point_at q encoded polynom ids made i id point h.2 e p

module _ {W : Type 0} (R : Type 0) (bn : Bignum W) (law : Documented R bn)
    (calloc : Call W (Unit {0}))
    (calloc_lem : (w : W) → Documents (¬ R) (λ _. Unit {0}) (calloc w).0) (alg : Algebra W) (q : ℕ)
    (encoded : ℕ → List ℕ) (laws : AlgebraLaws R alg q encoded) where
  -- In a sharing, the id and the point at any index pass the check against the published points of the
  -- coefficients; the check fails only where memory runs out. The group order is above one.
  pub IsSharing-verify_share :
      (secret t n : ℕ) (ids : List ℕ) (v : VerifiableSecretSharing) (i id : ℕ) (point : List ℕ)
      → 1 < q
      → IsSharing q encoded secret ids t n v
      → get_elem? v.ids i ≡ some id
      → get_elem? v.proofs i ≡ some point
      → Ensures R
          (λ _. Unit {0})
          (verify_share bn calloc (some alg) id (some point) (some v.coefficient_proofs))
  IsSharing-verify_share secret t n ids v i id point more h e p =
      let polynom = secret ∷ h.coefficients in
      let at_id =
        point_at q encoded polynom ids h.made i id point h.values
          (ap (λ xs. get_elem? xs i) (sym h.ids_lem) ∙ e)
          (ap (λ xs. get_elem? xs i) (sym h.made_points) ∙ p) in
      subst
        (λ ps.
          Ensures R (λ _. Unit {0}) (verify_share bn calloc (some alg) id (some point) (some ps)))
        (sym h.coefficient_points)
        (subst
          (λ x.
            Ensures R (λ _. Unit {0})
              (verify_share bn calloc (some alg) id (some x) (some (each encoded polynom))))
          (sym at_id)
          ((verify_share_lem R bn law calloc calloc_lem alg q encoded laws id (eval polynom id)
              secret h.coefficients more).accepts
            ((==_iff _ _).1 refl)))
