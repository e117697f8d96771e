-- ===== src/Pedersen/Batch.antt =====
-- The owner's check of many commitments at once, by a random linear combination. Three arrays of the
-- same size are one list of triples.
pub mod Honest
use audit_mpc_lib.Common.{
  ℕ, zero, ◌%◌, ◌^◌, Bool, true, false, ◌&&◌, not, Option, none, some, List, [], ◌∷◌, length, ◌==◌,
  if◌then◌else◌, Action, Call, pure, fail, fail_if, try, ◌>>=◌, ◌>>◌,
}
use audit_mpc_lib.Bignum.{Bignum}
use audit_mpc_lib.Bignum.Modexp.{Modexp}
use audit_mpc_lib.Pedersen.{
  PedersenStatus, unknown_error, invalid_parameter, invalid_commitment, out_of_memory,
  PedersenPrivate,
}
use audit_mpc_lib.Pedersen.Commit.{init_mont}

-- An entry of the three arrays: the number, the randomness and the commitment.
abbrev pub Entry : Type 0
Entry = ℕ × ℕ × ℕ

-- The guard loop on the pointers of the arrays.
unfoldable pub all_there : List (Option ℕ × Option ℕ × Option ℕ) → Option (List Entry)
all_there [] = some []
all_there ((some x, some r, some c) ∷ rest) = elim (all_there rest) [
  | none ↦ none
  | some es ↦ some ((x, r, c) ∷ es)
]
all_there (_ ∷ rest) = none

-- The bytes of an entry: `ring_pedersen_batch_data_t`, with `[]` for no data or no size.
unfoldable pub all_sized : ℕ → List (List ℕ × List ℕ × List ℕ) → Bool
all_sized len [] = true
all_sized len ((x, r, c) ∷ rest) =
    not (length x == 0) && not (length r == 0) && (length c == len) && all_sized len rest

module _ {W : Type 0} (bn : Bignum W) (mx : Modexp W) where
  open bn use {ctx_new, get, bin2bn, mod_mul, mod_add, mul_word, set_word, modulo}
  open mx use {num_bytes, mod_exp_mont, add, rand64}

  -- One round on the sum of the exponents and the product of the commitments.
  unfoldable pub batch_step :
      PedersenPrivate → Option ℕ → ℕ → Entry → ℕ × ℕ → Action W PedersenStatus (ℕ × ℕ)
  batch_step key mont gamma (x, r, c) (t_exp, b) = do
    tmp1 ← try unknown_error (mod_mul key.lamda x key.phi_n)
    tmp1 ← try unknown_error (mod_add tmp1 r key.phi_n)
    tmp1 ← try unknown_error (mul_word tmp1 gamma)
    t_exp ← try unknown_error (add t_exp tmp1)
    tmp2 ← try unknown_error (set_word gamma)
    tmp1 ← try unknown_error (mod_exp_mont c tmp2 key.public.n mont)
    b ← try unknown_error (mod_mul b tmp1 key.public.n)
    pure (t_exp, b)

  -- The comparison behind the loop.
  unfoldable pub batch_finish :
      PedersenPrivate → Option ℕ → ℕ × ℕ → Action W PedersenStatus (Unit {0})
  batch_finish key mont (t_exp, b) = do
    t_exp ← try unknown_error (modulo t_exp key.phi_n)
    t_exp ← try unknown_error (mod_exp_mont key.public.t t_exp key.public.n mont)
    if t_exp == b then pure tt else fail invalid_commitment

  -- 40 bits of the random number are used.
  unfoldable pub internal_loop :
      PedersenPrivate → Option ℕ → List Entry → ℕ × ℕ → Action W PedersenStatus (ℕ × ℕ)
  internal_loop key mont [] state = pure state
  internal_loop key mont (entry ∷ entries) state = do
    gamma ← try unknown_error rand64
    state ← batch_step key mont (gamma % 2 ^ 40) entry state
    internal_loop key mont entries state

  unfoldable pub verify_batch_internal :
      Option PedersenPrivate
      → Option (List (Option ℕ × Option ℕ × Option ℕ))
      → Bool
      → Action W PedersenStatus (Unit {0})
  verify_batch_internal (some key) (some (d ∷ ds)) true = elim (all_there (d ∷ ds)) [
    | none ↦ fail invalid_parameter
    | some entries ↦ do
      try out_of_memory get
      try out_of_memory get
      try out_of_memory get
      try out_of_memory get
      mont ← init_mont mx key.public
      state ← internal_loop key mont entries (0, 1)
      batch_finish key mont state
  ]
  verify_batch_internal _ _ _ = fail invalid_parameter

  -- All 64 bits are used, and the numbers are read from their bytes.
  unfoldable pub batch_loop :
      PedersenPrivate
      → Option ℕ
      → List (List ℕ × List ℕ × List ℕ)
      → ℕ × ℕ
      → Action W PedersenStatus (ℕ × ℕ)
  batch_loop key mont [] state = pure state
  batch_loop key mont ((x, r, c) ∷ entries) (t_exp, b) = do
    gamma ← try unknown_error rand64
    tmp1 ← try unknown_error (bin2bn x)
    tmp2 ← try unknown_error (bin2bn r)
    tmp1 ← try unknown_error (mod_mul key.lamda tmp1 key.phi_n)
    tmp1 ← try unknown_error (mod_add tmp1 tmp2 key.phi_n)
    tmp1 ← try unknown_error (mul_word tmp1 gamma)
    t_exp ← try unknown_error (add t_exp tmp1)
    tmp1 ← try unknown_error (bin2bn c)
    tmp2 ← try unknown_error (set_word gamma)
    tmp1 ← try unknown_error (mod_exp_mont tmp1 tmp2 key.public.n mont)
    b ← try unknown_error (mod_mul b tmp1 key.public.n)
    batch_loop key mont entries (t_exp, b)

  unfoldable pub verify_batch_commitments :
      Option PedersenPrivate
      → Option (List (List ℕ × List ℕ × List ℕ))
      → Action W PedersenStatus (Unit {0})
  verify_batch_commitments (some key) (some (d ∷ ds)) = do
    fail_if (not (all_sized (num_bytes key.public.n) (d ∷ ds))) invalid_parameter
    try out_of_memory ctx_new
    try out_of_memory get
    try out_of_memory get
    try out_of_memory get
    try out_of_memory get
    mont ← init_mont mx key.public
    state ← batch_loop key mont (d ∷ ds) (0, 1)
    batch_finish key mont state
  verify_batch_commitments _ _ = fail invalid_parameter
