-- ===== src/Commitments.antt =====
-- src/common/crypto/commitments/commitments.c: SHA256 commitments with a random salt, in one call and
-- over a context. SHA256, RAND_bytes and malloc are parameters; a NULL pointer is `none` or `false`.
pub mod Binding
pub mod Context
mod Tests
use audit_mpc_lib.Common.{
  ℕ, Bool, true, false, Option, none, some, List, [], ◌∷◌, if◌then◌else◌, bytes_eq, Result, ok, err,
  Action, Call, pure, fail, try, ◌>>=◌, ◌>>◌,
}
use audit_mpc_lib.Common.Sha.{Sha256}

pub data CommitmentsStatus : Type 0 where
  internal_error invalid_parameter out_of_memory invalid_context invalid_commitment :
      CommitmentsStatus

pub record Commitment : Type 0 where
  pub salt : List ℕ
  pub commitment : List ℕ

-- `sizeof(commitments_sha256_t)`
abbrev pub sha256_size : ℕ
sha256_size = 32

module _ {W : Type 0} (sha : Sha256) (rand_bytes : ℕ → Call W (List ℕ)) where
  open sha use {init, update, final}

  unfoldable pub create_commitment_for_data :
      Option (List ℕ) → Bool → Action W CommitmentsStatus Commitment
  create_commitment_for_data none has_out = fail invalid_parameter
  create_commitment_for_data (some []) has_out = fail invalid_parameter
  create_commitment_for_data (some (b ∷ bs)) has_out =
      if has_out
      then (do
        salt ← try internal_error (rand_bytes sha256_size)
        pure (record { salt = salt; commitment = final (update (update init salt) (b ∷ bs)) }))
      else fail invalid_parameter

module _ (sha : Sha256) where
  open sha use {Ctx, init, update, final}

  unfoldable pub verify_commitment :
      Option (List ℕ) → Option Commitment → Result CommitmentsStatus (Unit {0})
  verify_commitment none c = err invalid_parameter
  verify_commitment (some []) c = err invalid_parameter
  verify_commitment (some (b ∷ bs)) none = err invalid_parameter
  verify_commitment (some (b ∷ bs)) (some c) =
      if bytes_eq (final (update (update init c.salt) (b ∷ bs))) c.commitment
      then ok tt
      else err invalid_commitment

  -- `struct commitments_ctx`: the salt of a commitment in the making, or the hash to compare with.
  pub record CommitmentsCtx : Type 0 where
    pub commitment : List ℕ
    pub ctx : Ctx
    pub verifier : Bool

  unfoldable pub ctx_commitment_new :
      {W : Type 0}
      → Call W (Unit {0})
      → (ℕ → Call W (List ℕ))
      → Bool
      → Action W CommitmentsStatus CommitmentsCtx
  ctx_commitment_new malloc rand_bytes false = fail invalid_parameter
  ctx_commitment_new malloc rand_bytes true = do
    try out_of_memory malloc
    salt ← try internal_error (rand_bytes sha256_size)
    pure (record { commitment = salt; ctx = update init salt; verifier = false })

  unfoldable pub ctx_commitment_update :
      Option CommitmentsCtx → Option (List ℕ) → Result CommitmentsStatus CommitmentsCtx
  ctx_commitment_update none text = err invalid_parameter
  ctx_commitment_update (some c) none = err invalid_parameter
  ctx_commitment_update (some c) (some []) = err invalid_parameter
  ctx_commitment_update (some c) (some (b ∷ bs)) =
      if c.verifier then err invalid_context else ok (record c { ctx = update c.ctx (b ∷ bs) })

  -- On success the context is freed: only the commitment comes back.
  unfoldable pub ctx_commitment_final :
      Option CommitmentsCtx → Bool → Result CommitmentsStatus Commitment
  ctx_commitment_final none has_out = err invalid_parameter
  ctx_commitment_final (some c) false = err invalid_parameter
  ctx_commitment_final (some c) true =
      if c.verifier
      then err invalid_context
      else ok (record { salt = c.commitment; commitment = final c.ctx })

  unfoldable pub ctx_verify_new :
      {W : Type 0}
      → Call W (Unit {0})
      → Bool
      → Option Commitment
      → Action W CommitmentsStatus CommitmentsCtx
  ctx_verify_new malloc false c = fail invalid_parameter
  ctx_verify_new malloc true none = fail invalid_parameter
  ctx_verify_new malloc true (some c) = do
    try out_of_memory malloc
    pure (record { commitment = c.commitment; ctx = update init c.salt; verifier = true })

  unfoldable pub ctx_verify_update :
      Option CommitmentsCtx → Option (List ℕ) → Result CommitmentsStatus CommitmentsCtx
  ctx_verify_update none text = err invalid_parameter
  ctx_verify_update (some c) none = err invalid_parameter
  ctx_verify_update (some c) (some []) = err invalid_parameter
  ctx_verify_update (some c) (some (b ∷ bs)) =
      if c.verifier then ok (record c { ctx = update c.ctx (b ∷ bs) }) else err invalid_context

  unfoldable pub ctx_verify_final : Option CommitmentsCtx → Result CommitmentsStatus (Unit {0})
  ctx_verify_final none = err invalid_parameter
  ctx_verify_final (some c) =
      if c.verifier
      then if bytes_eq (final c.ctx) c.commitment then ok tt else err invalid_commitment
      else err invalid_context
