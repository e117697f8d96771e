-- ===== src/Pedersen/Proof.antt =====
-- The proof that s is a power of t: 80 commitments to random exponents and their responses.
mod Tests
pub mod Protocol
use audit_mpc_lib.Common.{
  ℕ, zero, suc, ◌+◌, ◌*◌, ◌%◌, ◌^◌, Bool, true, false, not, ◌&&◌, Option, none, some, List, [], ◌∷◌,
  ◌++◌, length, take, drop, ltb, ◌==◌, if◌then◌else◌, Result, ok, err, Action, Call, pure, fail,
  fail_if, try, map_err, ◌>>=◌, ◌>>◌, put32,
}
use audit_mpc_lib.Common.Sha.{Sha256}
use audit_mpc_lib.Bignum.{Bignum}
use audit_mpc_lib.Bignum.Modexp.{Modexp}
use audit_mpc_lib.Drng.{Drng, DrngStatus, drng_new, drng_read_deterministic_rand}
use audit_mpc_lib.Zkp.{
  ZkpStatus, unknown_error, invalid_parameter, insufficient_buffer, verification_failed,
  out_of_memory,
}
use audit_mpc_lib.Paillier.{is_coprime_fast}
use audit_mpc_lib.Pedersen.{PedersenPublic, PedersenPrivate, statistical_security}
use audit_mpc_lib.Pedersen.Codec.{CodecStatus, refused, attempt, read32, read_bytes}
use audit_mpc_lib.Pedersen.Commit.{init_mont}

-- The outcomes besides the code's own: a read behind the end of the proof, and the end of the fuel of
-- the generator's loop.
pub data ParamStatus : Type 0 where
  zkp : ZkpStatus → ParamStatus
  codec : CodecStatus → ParamStatus
  spinning : ParamStatus

-- `ring_pedersen_param_proof_t`: the pairs of A and z
abbrev pub ParamProof : Type 0
ParamProof = List (ℕ × ℕ)

module _ {W : Type 0} where
  -- `if (!call) goto cleanup`, with the status that is set before it.
  abbrev pub calls : {A : Type 0} → ZkpStatus → Call W A → Action W ParamStatus A
  calls status call = try (zkp status) call

  -- A helper of the code that returns 0 for any failure.
  abbrev pub or_else : {E A : Type 0} → ZkpStatus → Action W E A → Action W ParamStatus A
  or_else status m = map_err (λ _. zkp status) m

  -- One byte of the generator.
  unfoldable pub read_e :
      (List ℕ → List ℕ) → ℕ → ℕ → ZkpStatus → Drng → Action W ParamStatus (ℕ × Drng)
  read_e sha512 rng_address e_address status rng =
      elim (drng_read_deterministic_rand sha512 rng_address (some rng) (some e_address) 1) [
        | some (ok (e ∷ [], rng')) ↦ pure (e, rng')
        | some (ok _) ↦ fail spinning
        | some (err error) ↦ fail (zkp status)
        | none ↦ fail spinning
      ]

module _ {W : Type 0} (bn : Bignum W) where
  open bn use {get, bin2bn, bn2binpad}

  -- `init_ring_pedersen_param_zkp`
  unfoldable pub init_param_zkp : ℕ → Action W ParamStatus (Unit {0})
  init_param_zkp zero = pure tt
  init_param_zkp (suc count) = do
    a ← attempt get
    z ← attempt get
    elim a [
      | none ↦ fail (zkp out_of_memory)
      | some u ↦ elim z [ none ↦ fail (zkp out_of_memory) | some v ↦ init_param_zkp count ]
    ]

  -- The digits of the commitments, hashed one after the other.
  unfoldable pub hash_commitments :
      (sha : Sha256) → ℕ → ParamProof → sha.Ctx → Action W (Unit {0}) sha.Ctx
  hash_commitments sha size [] ctx = pure ctx
  hash_commitments sha size ((a, z) ∷ proof) ctx = do
    digits ← try tt (bn2binpad a size)
    hash_commitments sha size proof (sha.update ctx digits)

  -- BN_bn2binpad at an offset of a buffer; its failure leaves the bytes that were there.
  unfoldable pub write_padded : {E : Type 0} → List ℕ → ℕ → ℕ → ℕ → Action W E (List ℕ)
  write_padded buffer p n len = do
    digits ← attempt (bn2binpad n len)
    elim digits [ none ↦ pure (take len (drop p buffer)) | some s ↦ pure s ]

  unfoldable pub serialize_pairs : {E : Type 0} → List ℕ → ℕ → ℕ → ParamProof → Action W E (List ℕ)
  serialize_pairs buffer p n_len [] = pure []
  serialize_pairs buffer p n_len ((a, z) ∷ proof) = do
    a_bytes ← write_padded buffer p a n_len
    z_bytes ← write_padded buffer (p + n_len) z n_len
    rest ← serialize_pairs buffer (p + n_len + n_len) n_len proof
    pure (a_bytes ++ (z_bytes ++ rest))

  unfoldable pub deserialize_pairs : ℕ → List ℕ → ℕ → ℕ → Action W CodecStatus ParamProof
  deserialize_pairs zero buffer p n_len = pure []
  deserialize_pairs (suc count) buffer p n_len = do
    a_bytes ← read_bytes buffer p n_len
    a ← try refused (bin2bn a_bytes)
    z_bytes ← read_bytes buffer (p + n_len) n_len
    z ← try refused (bin2bn z_bytes)
    rest ← deserialize_pairs count buffer (p + n_len + n_len) n_len
    pure ((a, z) ∷ rest)

module _ {W : Type 0} (bn : Bignum W) (mx : Modexp W) where
  open mx use {num_bytes, mod_exp_mont, is_prime}
  open bn use {ctx_new, get, rand_range, mod_add_quick, mod_mul, bn2binpad}

  unfoldable pub serialized_size : PedersenPublic → ℕ
  serialized_size key = (4 * 2 + num_bytes key.n * 2 * statistical_security) % 2 ^ 32

  unfoldable pub serialize_param_zkp : {E : Type 0} → ParamProof → ℕ → List ℕ → Action W E (List ℕ)
  serialize_param_zkp proof n buffer = do
    pairs ← serialize_pairs bn buffer 8 (num_bytes n) proof
    pure (put32 (num_bytes n) ++ (put32 statistical_security ++ pairs))

  unfoldable pub deserialize_param_zkp : ℕ → List ℕ → Action W CodecStatus ParamProof
  deserialize_param_zkp n buffer = do
    proof_n_len ← read32 buffer 0
    fail_if (not (num_bytes n == proof_n_len)) refused
    count ← read32 buffer 4
    fail_if (ltb count statistical_security) refused
    deserialize_pairs bn statistical_security buffer 8 (num_bytes n)

  -- `genarate_zkp_seed`
  unfoldable pub generate_zkp_seed :
      Sha256
      → Call W (Unit {0})
      → PedersenPublic
      → ParamProof
      → List ℕ
      → Action W (Unit {0}) (List ℕ)
  generate_zkp_seed sha malloc key proof aad = do
    let size = num_bytes key.n
    try tt malloc
    n ← try tt (bn2binpad key.n size)
    s ← try tt (bn2binpad key.s size)
    t ← try tt (bn2binpad key.t size)
    let ctx = sha.update (sha.update (sha.update (sha.update sha.init aad) n) s) t
    ctx ← hash_commitments bn sha size proof ctx
    pure (sha.final ctx)

  -- The random exponents and their powers.
  unfoldable pub draw_pairs : PedersenPrivate → Option ℕ → ℕ → Action W ParamStatus ParamProof
  draw_pairs key mont zero = pure []
  draw_pairs key mont (suc count) = do
    z ← calls unknown_error (rand_range key.phi_n)
    a ← calls unknown_error (mod_exp_mont key.public.t z key.public.n mont)
    rest ← draw_pairs key mont count
    pure ((a, z) ∷ rest)

  module _ (sha512 : List ℕ → List ℕ) (rng_address e_address : ℕ) where
    -- The responses: lamda is added where the generator's byte is odd.
    unfoldable pub respond_pairs :
        PedersenPrivate → ParamProof → Drng → Action W ParamStatus ParamProof
    respond_pairs key [] rng = pure []
    respond_pairs key ((a, z) ∷ proof) rng = do
      (e, rng') ← read_e sha512 rng_address e_address unknown_error rng
      z' ← if e % 2 == 1 then calls unknown_error (mod_add_quick z key.lamda key.phi_n) else pure z
      rest ← respond_pairs key proof rng'
      pure ((a, z') ∷ rest)

    unfoldable pub verify_pairs :
        PedersenPublic → Option ℕ → ParamProof → Drng → Action W ParamStatus (Unit {0})
    verify_pairs key mont [] rng = pure tt
    verify_pairs key mont ((a, z) ∷ proof) rng = do
      (e, rng') ← read_e sha512 rng_address e_address verification_failed rng
      t_pow_z ← calls verification_failed (mod_exp_mont key.t z key.n mont)
      a' ← if e % 2 == 1 then calls verification_failed (mod_mul a key.s key.n) else pure a
      fail_if (not (t_pow_z == a')) (zkp verification_failed)
      verify_pairs key mont proof rng'
