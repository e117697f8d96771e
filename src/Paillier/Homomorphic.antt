-- ===== src/Paillier/Homomorphic.antt =====
-- The operations on ciphertexts: paillier_add, _add_integer, _sub, _sub_integer, _mul, _mul_integer
-- and paillier_get_ciphertext. The conventions are those of Messages.
pub mod Honest
pub mod Arithmetic
use audit_mpc_lib.Common.{
  ℕ, Bool, true, false, not, ltb, ◌||◌, ◌&&◌, if◌then◌else◌, Option, none, some, List, length,
  Action, pure, fail, fail_if, try, ◌>>=◌, ◌>>◌,
}
use audit_mpc_lib.Bignum.{Bignum}
use audit_mpc_lib.Bignum.Modexp.{Modexp}
use audit_mpc_lib.Bignum.Integers.{Integers}
use audit_mpc_lib.Paillier.Cipher.{
  PaillierStatus, unknown, invalid_plain_text, invalid_cipher_text, invalid_key, invalid_param,
  out_of_memory, openssl, unset, PublicKey, settle, coprime, encrypt_openssl,
}
use audit_mpc_lib.Paillier.Messages.{Written, Ciphertext, output}

module _ {W : Type 0} (bn : Bignum W) (mx : Modexp W) (zn : Integers W) where
  open bn use {ctx_new, get, bin2bn, set_word, mod_mul, mod_inverse}
  open mx use {num_bytes, mod_exp}

  -- A ciphertext that is there and not too long.
  unfoldable pub fits : PublicKey → Option (List ℕ) → Bool
  fits key none = false
  fits key (some a) = not (ltb (num_bytes key.n2) (length a))

  -- The frame that the operations share: the tests of the buffer for the result, the memory, and the
  -- number that the operation computes as the result.
  unfoldable pub with_result : PublicKey → Bool → ℕ → Action W PaillierStatus ℕ → Written W
  with_result key result result_len operation = (
    some (num_bytes key.n2),
    do
      fail_if (not result || ltb result_len (num_bytes key.n2)) invalid_cipher_text
      try out_of_memory ctx_new
      settle zn none do try unset get; try unset get; try unset get; res ← operation; output bn res,
  )

  -- Two ciphertexts that have to be coprime with n.
  unfoldable pub read_pair : PublicKey → List ℕ → List ℕ → Action W PaillierStatus (ℕ × ℕ)
  read_pair key a_ciphertext b_ciphertext = do
    a ← try unset (bin2bn a_ciphertext)
    b ← try unset (bin2bn b_ciphertext)
    a_unit ← coprime bn a key.n
    fail_if (not a_unit) invalid_cipher_text
    b_unit ← coprime bn b key.n
    fail_if (not b_unit) invalid_cipher_text
    pure (a, b)

  -- A ciphertext that has to be coprime with n, and a number.
  unfoldable pub read_with_integer : PublicKey → List ℕ → ℕ → Action W PaillierStatus (ℕ × ℕ)
  read_with_integer key a_ciphertext b = do
    bn_a ← try unset (bin2bn a_ciphertext)
    bn_b ← try unset (set_word b)
    unit ← coprime bn bn_a key.n
    fail_if (not unit) invalid_cipher_text
    pure (bn_a, bn_b)

  -- The tests of two ciphertexts, and the frame.
  unfoldable pub on_pair :
      Option PublicKey
      → Option (List ℕ)
      → Option (List ℕ)
      → Bool
      → ℕ
      → (PublicKey → ℕ × ℕ → Action W PaillierStatus ℕ)
      → Written W
  on_pair (some key) (some a) (some b) result result_len compute =
      if not (fits key (some a)) || not (fits key (some b))
      then (none, fail invalid_cipher_text)
      else with_result key result result_len (read_pair key a b >>= compute key)
  on_pair (some key) _ _ result result_len compute = (none, fail invalid_cipher_text)
  on_pair none _ _ result result_len compute = (none, fail invalid_key)

  unfoldable pub on_integer :
      Option PublicKey
      → Option (List ℕ)
      → ℕ
      → Bool
      → ℕ
      → (PublicKey → ℕ × ℕ → Action W PaillierStatus ℕ)
      → Written W
  on_integer none a b result result_len compute = (none, fail invalid_key)
  on_integer (some key) none b result result_len compute = (none, fail invalid_cipher_text)
  on_integer (some key) (some a) b result result_len compute =
      if not (fits key (some a))
      then (none, fail invalid_cipher_text)
      else with_result key result result_len (read_with_integer key a b >>= compute key)

  unfoldable pub add : Option PublicKey → Option (List ℕ) → Option (List ℕ) → Bool → ℕ → Written W
  add key a_ciphertext b_ciphertext result result_len =
      on_pair key a_ciphertext b_ciphertext result result_len
        λ key (a, b). try unset (mod_mul a b key.n2)

  unfoldable pub sub : Option PublicKey → Option (List ℕ) → Option (List ℕ) → Bool → ℕ → Written W
  sub key a_ciphertext b_ciphertext result result_len =
      on_pair key a_ciphertext b_ciphertext result result_len
        λ key (a, b). do b ← try unset (mod_inverse b key.n2); try unset (mod_mul a b key.n2)

  unfoldable pub add_integer : ℕ → Option PublicKey → Option (List ℕ) → ℕ → Bool → ℕ → Written W
  add_integer fuel key a_ciphertext b result result_len =
      on_integer key a_ciphertext b result result_len λ key (a, b). do
        res ← encrypt_openssl bn mx zn fuel key 0 b
        try unset (mod_mul a res key.n2)

  unfoldable pub sub_integer : ℕ → Option PublicKey → Option (List ℕ) → ℕ → Bool → ℕ → Written W
  sub_integer fuel key a_ciphertext b result result_len =
      on_integer key a_ciphertext b result result_len λ key (a, b). do
        res ← encrypt_openssl bn mx zn fuel key 0 b
        res ← try unset (mod_inverse res key.n2)
        try unset (mod_mul a res key.n2)

  unfoldable pub mul_integer : Option PublicKey → Option (List ℕ) → ℕ → Bool → ℕ → Written W
  mul_integer key a_ciphertext b result result_len =
      on_integer key a_ciphertext b result result_len λ key (a, b). try unset (mod_exp a b key.n2)

  -- A ciphertext and the bytes of a plaintext.
  unfoldable pub read_with_plaintext : PublicKey → List ℕ → List ℕ → Action W PaillierStatus (ℕ × ℕ)
  read_with_plaintext key a_ciphertext b_plaintext = do
    bn_a ← try unset (bin2bn a_ciphertext)
    bn_b ← try unset (bin2bn b_plaintext)
    unit ← coprime bn bn_a key.n
    fail_if (not unit) invalid_cipher_text
    pure (bn_a, bn_b)

  unfoldable pub mul : Option PublicKey → Option (List ℕ) → Option (List ℕ) → Bool → ℕ → Written W
  mul none a_ciphertext b_plaintext result result_len = (none, fail invalid_key)
  mul (some key) none b_plaintext result result_len = (none, fail invalid_cipher_text)
  mul (some key) (some a) b_plaintext result result_len =
      if not (fits key (some a)) then (none, fail invalid_cipher_text) else elim b_plaintext [
        | none ↦ (none, fail invalid_plain_text)
        | some b ↦
            if ltb (num_bytes key.n) (length b)
            then (none, fail invalid_plain_text)
            else with_result key result result_len
                do (a, b) ← read_with_plaintext key a b; try unset (mod_exp a b key.n2)
      ]

  unfoldable pub get_ciphertext : Option Ciphertext → Bool → ℕ → Written W
  get_ciphertext none ciphertext ciphertext_len = (none, fail invalid_cipher_text)
  get_ciphertext (some object) ciphertext ciphertext_len =
      let size = num_bytes object.ciphertext in
      if not ciphertext && ltb 0 ciphertext_len then (none, fail invalid_param) else (
        some size,
        do
          fail_if (not ciphertext || ltb ciphertext_len size) invalid_cipher_text
          output bn object.ciphertext,
      )
