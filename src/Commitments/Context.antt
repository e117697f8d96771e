-- ===== src/Commitments/Context.antt =====
-- The context functions: a text that is fed in pieces is committed to and verified as a whole.
use audit_mpc_lib.Common.{
  ℕ, ◌≡◌, ◌≢◌, refl, sym, ap, ◌∙◌, ◌++◌, Bool, true, false, Option, some, List, [], ◌∷◌, arith,
  bytes_eq, All, bytes_eq_refl, Result, ok, err, Call, if◌then◌else◌, append_assoc, append-nil,
}
use audit_mpc_lib.Common.Sha.{Sha256, sha256, sha256_two}
use audit_mpc_lib.Commitments.{
  invalid_commitment, Commitment, CommitmentsCtx, CommitmentsStatus, verify_commitment,
  ctx_commitment_new, ctx_commitment_update, ctx_commitment_final, ctx_verify_new,
  ctx_verify_update, ctx_verify_final, invalid_context,
}
use mathlib.Core.List.{flatten}

module _ (sha : Sha256) where
  open sha use {Ctx, init, update, final}

  -- The calls of an update function on the pieces of a text, up to the first error.
  pub feed :
      (Option (CommitmentsCtx sha)
        → Option (List ℕ)
        → Result CommitmentsStatus (CommitmentsCtx sha))
      → CommitmentsCtx sha
      → List (List ℕ)
      → Result CommitmentsStatus (CommitmentsCtx sha)
  feed step c [] = ok c
  feed step c (p ∷ ps) = elim (step (some c) (some p)) [ ok c' ↦ feed step c' ps | err e ↦ err e ]

  -- A context that has taken in the text `m`.
  abbrev pub holding : List ℕ → Bool → List ℕ → CommitmentsCtx sha
  holding tag role m = record { commitment = tag; ctx = update init m; verifier = role }

  feed_step :
      (tag m p : List ℕ) (role : Bool)
      → holding tag role (m ++ p) ≡ record (holding tag role m) { ctx = update (update init m) p }
  feed_step tag m p role =
      ap (λ c. record (holding tag role m) { ctx = c }) (sym (sha.update-update init m p))

  pub feed_commit :
      (tag m : List ℕ) (pieces : List (List ℕ))
      → All (λ p. p ≢ []) pieces
      → feed (ctx_commitment_update sha) (holding tag false m) pieces
        ≡ ok (holding tag false (m ++ flatten pieces))
  unfolding feed ctx_commitment_update flatten
  feed_commit tag m [] h = ap (λ l. ok (holding tag false l)) (sym (append-nil m))
  feed_commit tag m ([] ∷ ps) h = absurd (h.0 refl)
  feed_commit tag m ((b ∷ bs) ∷ ps) h =
      ap (λ c. feed (ctx_commitment_update sha) c ps) (sym (feed_step tag m (b ∷ bs) false))
      ∙ feed_commit tag (m ++ (b ∷ bs)) ps h.1
      ∙ ap (λ l. ok (holding tag false l)) (append_assoc m (b ∷ bs) (flatten ps))

  feed_verify :
      (tag m : List ℕ) (pieces : List (List ℕ))
      → All (λ p. p ≢ []) pieces
      → feed (ctx_verify_update sha) (holding tag true m) pieces
        ≡ ok (holding tag true (m ++ flatten pieces))
  unfolding feed ctx_verify_update flatten
  feed_verify tag m [] h = ap (λ l. ok (holding tag true l)) (sym (append-nil m))
  feed_verify tag m ([] ∷ ps) h = absurd (h.0 refl)
  feed_verify tag m ((b ∷ bs) ∷ ps) h =
      ap (λ c. feed (ctx_verify_update sha) c ps) (sym (feed_step tag m (b ∷ bs) true))
      ∙ feed_verify tag (m ++ (b ∷ bs)) ps h.1
      ∙ ap (λ l. ok (holding tag true l)) (append_assoc m (b ∷ bs) (flatten ps))

  module _ {W : Type 0} (malloc : Call W (Unit {0})) where
    -- The committing side, from `commitments_ctx_commitment_new` to `commitments_ctx_commitment_final`.
    unfoldable pub commit_run :
        (ℕ → Call W (List ℕ)) → List (List ℕ) → W → Result CommitmentsStatus Commitment
    commit_run rand_bytes pieces w = elim (ctx_commitment_new sha malloc rand_bytes true w).0 [
      | ok c ↦ elim (feed (ctx_commitment_update sha) c pieces) [
        | ok c' ↦ ctx_commitment_final sha (some c') true
        | err e ↦ err e
      ]
      | err e ↦ err e
    ]

    -- The verifying side, from `commitments_ctx_verify_new` to `commitments_ctx_verify_final`.
    unfoldable pub verify_run : Commitment → List (List ℕ) → W → Result CommitmentsStatus (Unit {0})
    verify_run sent pieces w = elim (ctx_verify_new sha malloc true (some sent) w).0 [
      | ok c ↦ elim (feed (ctx_verify_update sha) c pieces) [
        | ok c' ↦ ctx_verify_final sha (some c')
        | err e ↦ err e
      ]
      | err e ↦ err e
    ]

    new_lem :
        (rand_bytes : ℕ → Call W (List ℕ)) (w : W) (salt : List ℕ)
        → (malloc w).0 ≡ some tt
        → (rand_bytes 32 (malloc w).1).0 ≡ some salt
        → (ctx_commitment_new sha malloc rand_bytes true w).0 ≡ ok (holding salt false salt)
    unfolding ctx_commitment_new
    new_lem rand_bytes w salt m r = ground arith

    commit_run_lem :
        (rand_bytes : ℕ → Call W (List ℕ)) (pieces : List (List ℕ)) (w : W) (salt : List ℕ)
        → All (λ p. p ≢ []) pieces
        → (malloc w).0 ≡ some tt
        → (rand_bytes 32 (malloc w).1).0 ≡ some salt
        → commit_run rand_bytes pieces w
          ≡ ok (record { salt = salt; commitment = sha256 sha (salt ++ flatten pieces) })
    unfolding commit_run ctx_commitment_final sha256
    commit_run_lem rand_bytes pieces w salt h m r =
        rw (new_lem rand_bytes w salt m r, commit_run, feed_commit salt salt pieces h)

    verify_run_lem :
        (sent : Commitment) (pieces : List (List ℕ)) (w : W)
        → All (λ p. p ≢ []) pieces
        → (malloc w).0 ≡ some tt
        → verify_run sent pieces w ≡ (
            if bytes_eq (sha256 sha (sent.salt ++ flatten pieces)) sent.commitment
            then ok tt
            else err invalid_commitment)
    unfolding verify_run ctx_verify_new ctx_verify_final sha256
    verify_run_lem sent pieces w h m =
        rw (verify_run, m, feed_verify sent.commitment sent.salt pieces h)

  -- A text that is committed to over a context, in pieces that are not empty, verifies over a context
  -- in any other such pieces of the same text, when memory and randomness are there.
  pub commit_run-verify_run :
      {W : Type 0} (malloc : Call W (Unit {0})) (rand_bytes : ℕ → Call W (List ℕ))
      (pieces others : List (List ℕ)) (w w' : W) (salt : List ℕ)
      → All (λ p. p ≢ []) pieces
      → All (λ p. p ≢ []) others
      → flatten pieces ≡ flatten others
      → (malloc w).0 ≡ some tt
      → (rand_bytes 32 (malloc w).1).0 ≡ some salt
      → (malloc w').0 ≡ some tt
      → (sent : Commitment) × (commit_run malloc rand_bytes pieces w ≡ ok sent)
        × (verify_run malloc sent others w' ≡ ok tt)
  commit_run-verify_run malloc rand_bytes pieces others w w' salt h k e m r m' =
      let sent : Commitment = record {
        salt = salt;
        commitment = sha256 sha (salt ++ flatten pieces);
      } in
      (
        sent,
        commit_run_lem malloc rand_bytes pieces w salt h m r,
        verify_run_lem malloc sent others w' k m'
            ∙ rw (← e, bytes_eq_refl (sha256 sha (salt ++ flatten pieces))),
      )

  -- Verification over a context answers what the one-call verification answers on the whole text.
  pub verify_run-verify_commitment :
      {W : Type 0} (malloc : Call W (Unit {0})) (sent : Commitment) (pieces : List (List ℕ)) (w : W)
      → All (λ p. p ≢ []) pieces
      → pieces ≢ []
      → (malloc w).0 ≡ some tt
      → verify_run malloc sent pieces w ≡ verify_commitment sha (some (flatten pieces)) (some sent)
  unfolding verify_commitment flatten
  verify_run-verify_commitment malloc sent [] w h ne m = absurd (ne refl)
  verify_run-verify_commitment malloc sent ([] ∷ ps) w h ne m = absurd (h.0 refl)
  verify_run-verify_commitment malloc sent ((b ∷ bs) ∷ ps) w h ne m =
      verify_run_lem malloc sent ((b ∷ bs) ∷ ps) w h m
      ∙ ap (λ d. if bytes_eq d sent.commitment then ok tt else err invalid_commitment)
          (sym (sha256_two sha sent.salt (b ∷ (bs ++ flatten ps))))

  -- A context serves one side only: a committing call on a verifying context and a verifying call on
  -- a committing one are refused.
  pub wrong_role :
      (c : CommitmentsCtx sha) (b : ℕ) (bs : List ℕ)
      → (c.verifier ≡ true
          → (ctx_commitment_update sha (some c) (some (b ∷ bs)) ≡ err invalid_context)
            × (ctx_commitment_final sha (some c) true ≡ err invalid_context))
        × (c.verifier ≡ false
            → (ctx_verify_update sha (some c) (some (b ∷ bs)) ≡ err invalid_context)
              × (ctx_verify_final sha (some c) ≡ err invalid_context))
  unfolding ctx_commitment_update ctx_commitment_final ctx_verify_update ctx_verify_final
  wrong_role c b bs = ground arith
