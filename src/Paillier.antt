-- ===== src/Paillier.antt =====
-- src/common/crypto/paillier/paillier.c over OpenSSL's BIGNUM: the test for coprime numbers.
pub mod Coprime
pub mod Units
pub mod Binomial
pub mod Encryption
pub mod Fermat
pub mod Cipher
pub mod Keys
pub mod Messages
pub mod Codec
pub mod Homomorphic
pub mod RoundTrip
pub mod CoprimeProof
mod Tests
use audit_mpc_lib.Common.{
  ℕ, zero, suc, Bool, true, false, ltb, ◌==◌, if◌then◌else◌, Action, Call, pure, fail, try, ◌>>=◌,
  ◌>>◌,
}
use audit_mpc_lib.Bignum.{Bignum}

-- The error is -1; `spinning`, the end of the fuel, is the model's own.
pub data CoprimeError : Type 0 where
  failed spinning : CoprimeError

module _ {W : Type 0} (bn : Bignum W) where
  open bn use {get, copy, modulo}

  -- The `while` loop of Euclid's algorithm, and BN_is_one behind it.
  unfoldable pub coprime_loop : ℕ → ℕ → ℕ → Action W CoprimeError Bool
  coprime_loop zero a b = fail spinning
  coprime_loop (suc fuel) a b = elim (b == 0) [
    | true ↦ pure (a == 1)
    | false ↦ do rest ← try failed (modulo a b); coprime_loop fuel b rest
  ]

  -- The second operand shrinks in each round, so that as many rounds as it has units are enough.
  unfoldable pub is_coprime_fast : ℕ → ℕ → Action W CoprimeError Bool
  is_coprime_fast in_a in_b = do
    try failed get
    try failed get
    a ← try failed (copy in_a)
    b ← try failed (copy in_b)
    if ltb a b then coprime_loop (suc a) b a else coprime_loop (suc b) a b
