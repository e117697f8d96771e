-- ===== src/Commitments/Binding.antt =====
-- The one-call functions: what is accepted is exactly the hash of the salt and the text.
use audit_mpc_lib.Common.{
  ℕ, ◌≡◌, refl, ◌↔◌, ◌⊎◌, ◌++◌, Bool, true, false, Option, none, some, List, [], ◌∷◌, arith,
  bytes_eq_iff, bytes_eq_refl, Result, ok, err, Call, Option-cases, inl, inr, ◌≢◌,
}
use audit_mpc_lib.Common.Sha.{Sha256, sha256, sha256_two}
use audit_mpc_lib.Commitments.{
  Commitment, create_commitment_for_data, verify_commitment, invalid_parameter, invalid_commitment,
  internal_error, out_of_memory, invalid_context, sha256_size, CommitmentsStatus,
}

module _ (sha : Sha256) where
  open sha use {init, update, final}

  -- On a text that is not empty a commitment is accepted exactly when it is the SHA256 of its salt
  -- followed by the text, and refused as invalid otherwise.
  pub verify_commitment_iff :
      (text : List ℕ) (c : Commitment)
      → text ≢ []
      → ((verify_commitment sha (some text) (some c) ≡ ok tt)
          ↔ (sha256 sha (c.salt ++ text) ≡ c.commitment))
        × ((verify_commitment sha (some text) (some c) ≡ err invalid_commitment)
            ↔ (sha256 sha (c.salt ++ text) ≢ c.commitment))
  unfolding verify_commitment
  verify_commitment_iff [] c h = absurd (h refl)
  verify_commitment_iff (b ∷ bs) c h =
      rw (← sha256_two sha c.salt (b ∷ bs))
        (ground (arith, bytes_eq_iff (final (update (update init c.salt) (b ∷ bs))) c.commitment))

  -- What each result of the creation says.
  abbrev pub CreatePost :
      {W : Type 0}
      → (ℕ → Call W (List ℕ))
      → Option (List ℕ)
      → Bool
      → W
      → Result CommitmentsStatus Commitment
      → Type 0
  CreatePost rand_bytes text has_out w (ok c) =
      ((rand_bytes sha256_size w).0 ≡ some c.salt) × (verify_commitment sha text (some c) ≡ ok tt)
  CreatePost rand_bytes text has_out w (err internal_error) = (rand_bytes sha256_size w).0 ≡ none
  CreatePost rand_bytes text has_out w (err invalid_parameter) =
      (text ≡ none) ⊎ (text ≡ some []) ⊎ (has_out ≡ false)
  CreatePost rand_bytes text has_out w (err out_of_memory) = ⊥
  CreatePost rand_bytes text has_out w (err invalid_context) = ⊥
  CreatePost rand_bytes text has_out w (err invalid_commitment) = ⊥

  -- A commitment that is created verifies on its own text, under the salt that RAND_bytes gave. The
  -- creation fails only for a missing argument or an empty text, or when RAND_bytes fails.
  pub create_commitment_for_data_lem :
      {W : Type 0} (rand_bytes : ℕ → Call W (List ℕ)) (text : Option (List ℕ)) (has_out : Bool)
      (w : W)
      → CreatePost rand_bytes text has_out w
          (create_commitment_for_data sha rand_bytes text has_out w).0
  unfolding create_commitment_for_data verify_commitment
  create_commitment_for_data_lem rand_bytes none has_out w = inl refl
  create_commitment_for_data_lem rand_bytes (some []) has_out w = inr (inl refl)
  create_commitment_for_data_lem rand_bytes (some (b ∷ bs)) false w = inr (inr refl)
  create_commitment_for_data_lem rand_bytes (some (b ∷ bs)) true w =
      elim (Option-cases (rand_bytes sha256_size w).0) [
        | inl fails ↦ rw (fails, CreatePost) fails
        | inr (salt, works) ↦
            rw (works, CreatePost)
              (works, rw (bytes_eq_refl (final (update (update init salt) (b ∷ bs)))) refl)
      ]
