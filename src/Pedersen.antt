-- ===== src/Pedersen.antt =====
-- src/common/crypto/commitments/ring_pedersen.c: the ring Pedersen parameters, their commitments and
-- the proof that they are well formed. OpenSSL's BIGNUM, SHA256, SHA512 and malloc are parameters;
-- NULL is `none`, and `false` for a pointer to a result.
pub mod Codec
mod Tests
pub mod Commit
pub mod Batch
pub mod Keys
pub mod Proof
use audit_mpc_lib.Common.{
  ℕ, ◌≡◌, Bool, Option, none, some, List, Action, Call, pure, fail, try, ◌>>=◌,
}

-- `ring_pedersen_status`
pub data PedersenStatus : Type 0 where
  unknown_error keylen_too_short invalid_parameter buffer_too_short invalid_commitment
        out_of_memory :
      PedersenStatus

-- `RING_PEDERSEN_STATISTICAL_SECURITY` and `MIN_KEY_LEN_IN_BITS`
abbrev pub statistical_security : ℕ
statistical_security = 80

abbrev pub min_key_len_in_bits : ℕ
min_key_len_in_bits = 256

-- `struct ring_pedersen_public`; the Montgomery context is the modulus that it was set for.
pub record PedersenPublic : Type 0 where
  pub n : ℕ
  pub s : ℕ
  pub t : ℕ
  pub mont : Option ℕ

-- `struct ring_pedersen_private`
pub record PedersenPrivate : Type 0 where
  pub public : PedersenPublic
  pub lamda : ℕ
  pub phi_n : ℕ
