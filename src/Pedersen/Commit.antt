-- ===== src/Pedersen/Commit.antt =====
-- Commitments to a number with the public key, and their check with the private key.
pub mod Agreement
pub mod Honest
use audit_mpc_lib.Common.{
  ℕ, zero, Bool, true, false, ◌&&◌, Option, none, some, List, [], ◌∷◌, length, ltb, ◌==◌,
  if◌then◌else◌, not, Result, ok, err, Action, Call, pure, fail, fail_if, try, ◌>>=◌, ◌>>◌,
}
use audit_mpc_lib.Bignum.{Bignum}
use audit_mpc_lib.Bignum.Modexp.{Modexp}
use audit_mpc_lib.Pedersen.{
  PedersenStatus, unknown_error, invalid_parameter, buffer_too_short, invalid_commitment,
  out_of_memory, PedersenPublic, PedersenPrivate,
}

module _ {W : Type 0} (mx : Modexp W) where
  open mx use {mont_new, mont_set}

  -- The Montgomery context of the key, made on its first use. The code keeps the new context in the
  -- key; here it is returned, and a function starts from the context that its key has.
  unfoldable pub init_mont : {E : Type 0} → PedersenPublic → Action W E (Option ℕ)
  init_mont key w = elim key.mont [
    | some m ↦ (ok (some m), w)
    | none ↦
        let (made, w') = mont_new w in
        elim made [
          | none ↦ (ok none, w')
          | some u ↦ let (set, w'') = mont_set key.n w' in (ok set, w'')
        ]
  ]

  unfoldable pub init_montgomery : PedersenPublic → Action W PedersenStatus (Option ℕ)
  init_montgomery key = do
    mont ← init_mont key
    elim mont [ none ↦ fail out_of_memory | some m ↦ pure (some m) ]

module _ {W : Type 0} (bn : Bignum W) (mx : Modexp W) where
  open bn use {ctx_new, get, bin2bn, bn2binpad, mod_mul, mod_add}
  open mx use {num_bytes, mod_exp_mont, mod_exp2_mont}

  unfoldable pub create_commitment_internal : PedersenPublic → ℕ → ℕ → Action W PedersenStatus ℕ
  create_commitment_internal key x r = do
    try out_of_memory get
    mont ← init_mont mx key
    try unknown_error (mod_exp2_mont key.s x key.t r key.n mont)

  -- The real length, which is set for valid parameters, and the commitment.
  unfoldable pub create_commitment :
      Option PedersenPublic
      → Option (List ℕ)
      → Option (List ℕ)
      → Bool
      → ℕ
      → Option ℕ × Action W PedersenStatus (List ℕ)
  create_commitment (some key) (some (x ∷ xs)) (some (r ∷ rs)) commitment commitment_len =
      let needed_len = num_bytes key.n in
      if not commitment && not (commitment_len == 0) then (none, fail invalid_parameter) else (
        some needed_len,
        (do
          fail_if (ltb commitment_len needed_len) buffer_too_short
          try out_of_memory ctx_new
          try out_of_memory get
          try out_of_memory get
          bn_x ← try out_of_memory (bin2bn (x ∷ xs))
          bn_r ← try out_of_memory (bin2bn (r ∷ rs))
          c ← create_commitment_internal key bn_x bn_r
          try unknown_error (bn2binpad c needed_len)),
      )
  create_commitment _ _ _ _ _ = (none, fail invalid_parameter)

  unfoldable pub verify_commitment_internal :
      PedersenPrivate → ℕ → ℕ → ℕ → Action W PedersenStatus (Unit {0})
  verify_commitment_internal key x r commitment = do
    try out_of_memory get
    mont ← init_mont mx key.public
    scaled ← try unknown_error (mod_mul key.lamda x key.phi_n)
    exponent ← try unknown_error (mod_add scaled r key.phi_n)
    expected ← try unknown_error (mod_exp_mont key.public.t exponent key.public.n mont)
    if expected == commitment then pure tt else fail invalid_commitment

  unfoldable pub verify_commitment :
      Option PedersenPrivate
      → Option (List ℕ)
      → Option (List ℕ)
      → Option (List ℕ)
      → Action W PedersenStatus (Unit {0})
  verify_commitment (some key) (some (x ∷ xs)) (some (r ∷ rs)) (some (c ∷ cs)) = do
    fail_if (not (length (c ∷ cs) == num_bytes key.public.n)) invalid_parameter
    try out_of_memory ctx_new
    try out_of_memory get
    try out_of_memory get
    try out_of_memory get
    bn_x ← try out_of_memory (bin2bn (x ∷ xs))
    bn_r ← try out_of_memory (bin2bn (r ∷ rs))
    commit ← try out_of_memory (bin2bn (c ∷ cs))
    verify_commitment_internal key bn_x bn_r commit
  verify_commitment _ _ _ _ = fail invalid_parameter
