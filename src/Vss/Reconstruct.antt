-- ===== src/Vss/Reconstruct.antt =====
-- Reconstruction by Lagrange interpolation at zero, in verifiable_secret_sharing.c.
use audit_mpc_lib.Common.{
  ℕ, suc, Option, none, some, List, [], ◌∷◌, if◌then◌else◌, ◌==◌, leb, Result, ok, err, Action,
  pure, fail, fail_if, try, ◌>>=◌, ◌>>◌, length, not,
}
use audit_mpc_lib.Bignum.{Bignum}
use audit_mpc_lib.Algebra.{Algebra}
use audit_mpc_lib.Vss.{
  VssStatus, unknown_error, invalid_parameter, out_of_memory, insufficient_buffer, SecretShare,
}
use audit_mpc_lib.Vss.Split.{ids_valid}

abbrev pub share_ids : List SecretShare → List ℕ
share_ids [] = []
share_ids (s ∷ ss) = s.id ∷ share_ids ss

module _ {W : Type 0} (bn : Bignum W) where
  open bn use {
    ctx_new, get, bin2bn, mod_mul, mod_inverse, set_word, mod_add_quick, mod_sub_quick, bn2bin,
  }

  -- The loop of `lagrange_interpolate` over the ids from the i-th on.
  unfoldable pub interpolate_loop : ℕ → List ℕ → ℕ → ℕ → ℕ → ℕ → Action W VssStatus ℕ
  interpolate_loop i [] index x p field = pure p
  interpolate_loop i (id ∷ ids) index x p field =
      if i == index then interpolate_loop (suc i) ids index x p field else (do
        other_x ← try out_of_memory (set_word id)
        difference ← try out_of_memory (mod_sub_quick other_x x field)
        inverse ← try out_of_memory (mod_inverse difference field)
        tmp ← try out_of_memory (mod_mul inverse other_x field)
        next ← try out_of_memory (mod_mul p tmp field)
        interpolate_loop (suc i) ids index x next field)

  -- Every failure is an out-of-memory error of `reconstruct`.
  unfoldable pub lagrange_interpolate : List ℕ → ℕ → ℕ → ℕ → Action W VssStatus ℕ
  lagrange_interpolate ids id index field = do
    try out_of_memory get
    try out_of_memory get
    try out_of_memory get
    x ← try out_of_memory (set_word id)
    p ← try out_of_memory (set_word 1)
    interpolate_loop 0 ids index x p field

  unfoldable pub sum_shares : List ℕ → ℕ → ℕ → List SecretShare → ℕ → Action W VssStatus ℕ
  sum_shares ids field i [] sum = pure sum
  sum_shares ids field i (s ∷ ss) sum = do
    y_value ← try out_of_memory (bin2bn s.bytes)
    coefficient ← lagrange_interpolate ids s.id i field
    tmp ← try out_of_memory (mod_mul y_value coefficient field)
    next ← try out_of_memory (mod_add_quick sum tmp field)
    sum_shares ids field (suc i) ss next

  -- The status at the end: `none` is no buffer for the secret.
  abbrev pub write_secret : ℕ → Option ℕ → Result VssStatus (List ℕ)
  write_secret sum none = if leb (length (bn2bin sum)) 0 then ok [] else err insufficient_buffer
  write_secret sum (some secret_len) =
      if leb (length (bn2bin sum)) secret_len
      then if leb 1 (length (bn2bin sum)) then ok (bn2bin sum) else err unknown_error
      else err insufficient_buffer

  -- What is returned is `*out_secret_len`, which is set also where the buffer is too small, and the
  -- final status with the bytes of the secret. Without a buffer its length is zero.
  unfoldable pub reconstruct :
      Option (Algebra W)
      → Option (List SecretShare)
      → Option ℕ
      → Action W VssStatus (ℕ × Result VssStatus (List ℕ))
  reconstruct (some alg) (some (s ∷ ss)) secret_len = do
    fail_if (not (ids_valid (share_ids (s ∷ ss)))) invalid_parameter
    try out_of_memory ctx_new
    try out_of_memory get
    try out_of_memory get
    try out_of_memory get
    sum ← sum_shares (share_ids (s ∷ ss)) alg.order_internal 0 (s ∷ ss) 0
    pure (length (bn2bin sum), write_secret sum secret_len)
  reconstruct _ _ secret_len = fail invalid_parameter
