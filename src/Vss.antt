-- ===== src/Vss.antt =====
-- src/common/crypto/shamir_secret_sharing/verifiable_secret_sharing.c: the data, the readers of a
-- sharing and the check of a share. NULL is `none`, and `false` for a pointer to a result.
pub mod Split
pub mod Reconstruct
pub mod Shares
pub mod Shamir
pub mod Sharing
pub mod Honest
mod Tests
use audit_mpc_lib.Common.{
  ℕ, zero, suc, ◌-◌, Bool, true, false, Option, none, some, List, [], ◌∷◌, ◌++◌, if◌then◌else◌, leb,
  ltb, Result, ok, err, Action, Call, pure, fail, try, map_err, ◌>>=◌, ◌>>◌, get_elem?, take,
  length,
}
use audit_mpc_lib.Common.Sha.{Sha256}
use audit_mpc_lib.Bignum.{Bignum}
use audit_mpc_lib.Algebra.{Algebra}
use audit_mpc_lib.Commitments.{
  CommitmentsStatus, Commitment, create_commitment_for_data, verify_commitment,
}
use audit_mpc_lib.Commitments
use audit_mpc_lib.Curve.Status.{EcStatus}

-- `spinning` is the model's own: the draw of a coefficient that is not zero goes on.
pub data VssStatus : Type 0 where
  unknown_error invalid_parameter out_of_memory invalid_index insufficient_buffer : VssStatus
  invalid_secret invalid_share invalid_share_id spinning : VssStatus

-- `struct verifiable_secret_sharing`
pub record VerifiableSecretSharing : Type 0 where
  pub ids : List ℕ
  pub shares : List (List ℕ)
  pub proofs : List (List ℕ)
  pub coefficient_proofs : List (List ℕ)
  pub num_shares : ℕ
  pub threshold : ℕ

-- `shamir_secret_share_t`; its data is the field `bytes`.
pub record SecretShare : Type 0 where
  pub id : ℕ
  pub bytes : List ℕ

abbrev pub from_commitments_status : CommitmentsStatus → VssStatus
from_commitments_status Commitments.internal_error = unknown_error
from_commitments_status Commitments.invalid_parameter = invalid_parameter
from_commitments_status Commitments.invalid_context = invalid_parameter
from_commitments_status Commitments.out_of_memory = out_of_memory
from_commitments_status Commitments.invalid_commitment = invalid_share

unfoldable pub flatten : List (List ℕ) → List ℕ
flatten [] = []
flatten (s ∷ ss) = s ++ flatten ss

unfoldable pub get_share : Option VerifiableSecretSharing → ℕ → Bool → Result VssStatus SecretShare
get_share (some v) index true =
    if leb v.num_shares index then err invalid_index else elim (get_elem? v.shares index) [
      | none ↦ err unknown_error
      | some share ↦ elim (get_elem? v.ids index) [
        | none ↦ err unknown_error
        | some id ↦ ok (record { id = id; bytes = share })
      ]
    ]
get_share _ index _ = err invalid_parameter

unfoldable pub get_share_and_proof :
    Option VerifiableSecretSharing
    → ℕ
    → Bool
    → Bool
    → Result VssStatus (SecretShare × Option (List ℕ))
get_share_and_proof none index share proof = err invalid_parameter
get_share_and_proof (some v) index share false = err invalid_parameter
get_share_and_proof (some v) index share true = elim (get_share (some v) index share) [
  | err e ↦ err e
  | ok s ↦ ok (s, get_elem? v.proofs index)
]

abbrev pub get_number_of_players : Option VerifiableSecretSharing → Option ℕ
get_number_of_players none = none
get_number_of_players (some v) = some v.num_shares

abbrev pub get_threshold : Option VerifiableSecretSharing → Option ℕ
get_threshold none = none
get_threshold (some v) = some v.threshold

unfoldable pub get_polynom_proofs :
    Option VerifiableSecretSharing → Bool → ℕ → Result VssStatus (List (List ℕ))
get_polynom_proofs (some v) true count =
    if ltb count v.threshold
    then err invalid_parameter
    else ok (take v.threshold v.coefficient_proofs)
get_polynom_proofs _ _ count = err invalid_parameter

module _ {W : Type 0} (sha : Sha256) (malloc : Call W (Unit {0}))
    (rand_bytes : ℕ → Call W (List ℕ)) where
  unfoldable pub get_shares_commitment :
      Option VerifiableSecretSharing → Bool → Action W VssStatus Commitment
  get_shares_commitment (some v) true = do
    try out_of_memory malloc
    map_err from_commitments_status (
        create_commitment_for_data sha rand_bytes (some (flatten (take v.num_shares v.proofs)))
          true)
  get_shares_commitment _ _ = fail invalid_parameter

  unfoldable pub get_polynom_commitment :
      Option VerifiableSecretSharing → Bool → Action W VssStatus Commitment
  get_polynom_commitment (some v) true = do
    try out_of_memory malloc
    map_err from_commitments_status (
        create_commitment_for_data sha rand_bytes
          (some (flatten (take v.threshold v.coefficient_proofs))) true)
  get_polynom_commitment _ _ = fail invalid_parameter

-- Named as in the code; the commitments have a function of the same name.
unfoldable pub vss_verify_commitment :
    Sha256 → Option (List (List ℕ)) → Option Commitment → Result VssStatus (Unit {0})
vss_verify_commitment sha none c = err invalid_parameter
vss_verify_commitment sha (some proofs) c = elim (verify_commitment sha (some (flatten proofs)) c) [
  | ok u ↦ ok u
  | err e ↦ err (from_commitments_status e)
]

module _ {W : Type 0} (bn : Bignum W) (calloc : Call W (Unit {0})) where
  open bn use {ctx_new, get, bn2binpad, mod_mul, set_word}

  -- The loop of `verify_share`: the powers of `x` after `tmp`, in 32 bytes.
  unfoldable pub next_powers : ℕ → ℕ → ℕ → ℕ → Action W VssStatus (List (List ℕ))
  next_powers x field zero tmp = pure []
  next_powers x field (suc n) tmp = do
    next ← try out_of_memory (mod_mul tmp x field)
    s ← try unknown_error (bn2binpad next 32)
    rest ← next_powers x field n next
    pure (s ∷ rest)

  -- The threshold is the number of the coefficient proofs.
  unfoldable pub verify_share :
      Option (Algebra W)
      → ℕ
      → Option (List ℕ)
      → Option (List (List ℕ))
      → Action W VssStatus (Unit {0})
  verify_share (some alg) id (some share_proof) (some (p ∷ ps)) = do
    try out_of_memory ctx_new
    try out_of_memory get
    x ← try out_of_memory (set_word id)
    try out_of_memory get
    tmp ← try out_of_memory (set_word 1)
    try out_of_memory calloc
    first ← try unknown_error (bn2binpad tmp 32)
    powers ← next_powers x alg.order_internal (length ps) tmp
    res ←
        map_err (λ _. unknown_error)
          (alg.verify_linear_combination share_proof (p ∷ ps) (first ∷ powers))
    if res then pure tt else fail invalid_share
  verify_share _ id _ _ = fail invalid_parameter
