-- ===== src/Schnorr/Randomness.antt =====
-- Proofs with the caller's randomness: zero is refused, and anything else is the commitment's exponent.
use audit_mpc_lib.Common.{
  ℕ, zero, suc, ◌+◌, ◌*◌, ◌≤◌, ◌<◌, ◌≡◌, refl, sym, true, false, ◌&&◌, some, List, [], ◌∷◌, length,
  arith, ◌==◌, ==_iff, Ensures, weaken_rule, err, pure_rule, from_bytes,
}
use audit_mpc_lib.Common.Sha.{Sha256}
use audit_mpc_lib.Algebra.{Algebra, AlgebraLaws}
use audit_mpc_lib.Zkp.{invalid_parameter}
use audit_mpc_lib.Schnorr.{is_zero, schnorr_zkp_generate_with_custom_randomness, schnorr_zkp_verify}
use audit_mpc_lib.Schnorr.Completeness.{generate_impl_lem, Proves-accepted}

is_zero_words :
    (k acc : ℕ) (s : List ℕ)
    → length s ≡ 8 * k
    → (from_bytes acc s == 0) ≡ ((acc == 0) && is_zero s)
unfolding is_zero
is_zero_words zero acc [] e = unfold from_bytes in ground arith
is_zero_words zero acc (a ∷ s) e = absurd (omega arith)
is_zero_words (suc n) acc (a ∷ b ∷ c ∷ d ∷ e ∷ f ∷ g ∷ h ∷ s) len =
    unfold from_bytes in
    ground (
      arith,
      is_zero_words n
          ((((((((acc * 256 + a) * 256 + b) * 256 + c) * 256 + d) * 256 + e) * 256 + f) * 256 + g)
              * 256
            + h)
          s,
    )
is_zero_words (suc n) acc [] e = absurd (omega arith)
is_zero_words (suc n) acc (a ∷ []) e = absurd (omega arith)
is_zero_words (suc n) acc (a ∷ b ∷ []) e = absurd (omega arith)
is_zero_words (suc n) acc (a ∷ b ∷ c ∷ []) e = absurd (omega arith)
is_zero_words (suc n) acc (a ∷ b ∷ c ∷ d ∷ []) e = absurd (omega arith)
is_zero_words (suc n) acc (a ∷ b ∷ c ∷ d ∷ f ∷ []) e = absurd (omega arith)
is_zero_words (suc n) acc (a ∷ b ∷ c ∷ d ∷ f ∷ g ∷ []) e = absurd (omega arith)
is_zero_words (suc n) acc (a ∷ b ∷ c ∷ d ∷ f ∷ g ∷ h ∷ []) e = absurd (omega arith)

is_zero-number : (s : List ℕ) → length s ≡ 32 → is_zero s ≡ (from_bytes 0 s == 0)
is_zero-number s e = sym (is_zero_words 4 0 s e)

not_zero : (n : ℕ) → 0 < n → (n == 0) ≡ false
not_zero n h = ground arith

module _ {W : Type 0} (R : Type 0) (alg : Algebra W) (q : ℕ) (encoded : ℕ → List ℕ)
    (law : AlgebraLaws R alg q encoded) (sha : Sha256) where
  -- With randomness of 32 bytes: the number zero is refused as an invalid parameter; for any other the
  -- prover succeeds with a proof that the verifier accepts, unless memory runs out.
  pub custom_randomness_lem :
      (b : ℕ) (bs secret k : List ℕ)
      → 1 ≤ length secret
      → length k ≡ 32
      → ((from_bytes 0 k ≡ 0)
          → (w : W)
          → (schnorr_zkp_generate_with_custom_randomness sha
              (some alg)
              (some (b ∷ bs))
              (some secret)
              (some (encoded (from_bytes 0 secret)))
              (some k)
              true
              w).0
            ≡ err invalid_parameter)
        × ((0 < from_bytes 0 k)
            → Ensures R
                (λ proof.
                  Ensures R
                    (λ _. Unit {0})
                    (schnorr_zkp_verify sha
                      (some alg)
                      (some (b ∷ bs))
                      (some (encoded (from_bytes 0 secret)))
                      (some proof)))
                (schnorr_zkp_generate_with_custom_randomness sha
                  (some alg)
                  (some (b ∷ bs))
                  (some secret)
                  (some (encoded (from_bytes 0 secret)))
                  (some k)
                  true))
  unfolding schnorr_zkp_generate_with_custom_randomness
  custom_randomness_lem b bs secret k hs hk =
      let test = is_zero-number k hk in
      (
        λ z w. rw (test, (==_iff _ _).1 z) refl,
        λ pos.
            rw (test, not_zero (from_bytes 0 k) pos)
              (weaken_rule R
                (generate_impl_lem R alg q encoded law sha (b ∷ bs) secret (some k) hs
                  (pure_rule R k (omega arith)))
                λ proof p.
                  Proves-accepted R alg q encoded law sha b bs (from_bytes 0 secret) proof p),
      )
