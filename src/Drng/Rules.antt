-- ===== src/Drng/Rules.antt =====
-- The generator as a step of a larger call.
use audit_mpc_lib.Common.{
  ℕ, ◌≡◌, refl, true, some, List, [], ◌∷◌, length, arith, Call, Documents, Ensures, pure_rule,
  call_rule,
}
use audit_mpc_lib.Drng.{DrngStatus, refill, drng_new}

module _ {W : Type 0} (R : Type 0) (sha512 : List ℕ → List ℕ) (malloc : Call W (Unit {0}))
    (malloc_lem : (w : W) → Documents (¬ R) (λ _. Unit {0}) (malloc w).0) where
  pub new_rule :
      (seed : List ℕ)
      → length seed ≡ 32
      → Ensures R (λ rng. rng ≡ refill sha512 seed) (drng_new sha512 malloc (some seed) true)
  unfolding drng_new
  new_rule [] h = absurd (omega arith)
  new_rule (b ∷ seed) h =
      call_rule R DrngStatus.out_of_memory malloc malloc_lem
        λ u t. pure_rule R (refill sha512 (b ∷ seed)) refl
