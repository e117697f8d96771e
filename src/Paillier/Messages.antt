-- ===== src/Paillier/Messages.antt =====
-- paillier_encrypt, paillier_encrypt_to_ciphertext, paillier_encrypt_integer, paillier_decrypt and
-- paillier_decrypt_integer. A buffer that is read is the list of its bytes; of one that is written it
-- is passed whether it is there and how long it is. Each of the functions with a `real_len` returns
-- first what is stored there before the computation, `none` where nothing is, and then the call; on
-- success the length of the bytes is stored. A number from BN_CTX_get or BN_new holds 0. A result
-- `none` is a success that wrote nothing.
pub mod Bytes
pub mod Honest
use audit_mpc_lib.Common.{
  ℕ, ◌*◌, ◌^◌, Bool, true, false, not, ltb, leb, ◌==◌, ◌||◌, if◌then◌else◌, Option, none, some,
  List, [], ◌∷◌, length, Action, Call, pure, fail, fail_if, try, ◌>>=◌, ◌>>◌,
}
use audit_mpc_lib.Bignum.{Bignum}
use audit_mpc_lib.Bignum.Modexp.{Modexp}
use audit_mpc_lib.Bignum.Integers.{Integers}
use audit_mpc_lib.Paillier.Cipher.{
  PaillierStatus, unknown, invalid_plain_text, invalid_cipher_text, invalid_key, out_of_memory,
  openssl, unset, PublicKey, PrivateKey, settle, encrypt_loop, encrypt_openssl,
  decrypt_openssl_internal,
}

-- `struct paillier_ciphertext`
pub record Ciphertext : Type 0 where
  pub ciphertext : ℕ
  pub r : ℕ

-- What a function with a `real_len` does.
abbrev pub Written : Type 0 → Type 0
Written W = Option ℕ × Action W PaillierStatus (Option (List ℕ))

module _ {W : Type 0} (bn : Bignum W) where
  -- `len = BN_bn2bin(c, result); if (len <= 0) ret = PAILLIER_ERROR_UNKNOWN`
  unfoldable pub output : ℕ → Action W PaillierStatus (Option (List ℕ))
  output c =
      let bytes = bn.bn2bin c in if length bytes == 0 then fail unknown else pure (some bytes)

module _ {W : Type 0} (bn : Bignum W) (mx : Modexp W) (zn : Integers W) (calloc : Call W (Unit {0}))
    (fuel : ℕ) where
  open bn use {ctx_new, get, bin2bn, set_word}
  open mx use {num_bytes}

  unfoldable pub encrypt : Option PublicKey → Option (List ℕ) → Bool → ℕ → Written W
  encrypt none plaintext ciphertext ciphertext_len = (none, fail invalid_key)
  encrypt (some key) none ciphertext ciphertext_len = (none, fail invalid_plain_text)
  encrypt (some key) (some plaintext) ciphertext ciphertext_len =
      if ltb (num_bytes key.n) (length plaintext) then (none, fail invalid_plain_text) else (
        some (num_bytes key.n2),
        do
          fail_if (not ciphertext || ltb ciphertext_len (num_bytes key.n2)) invalid_cipher_text
          settle zn none do
            try unset ctx_new
            try unset get
            try unset get
            msg ← try unset (bin2bn plaintext)
            fail_if (leb key.n msg) invalid_plain_text
            c ← encrypt_openssl bn mx zn fuel key 0 msg
            output bn c,
      )

  unfoldable pub encrypt_integer : Option PublicKey → ℕ → Bool → ℕ → Written W
  encrypt_integer none plaintext ciphertext ciphertext_len = (none, fail invalid_key)
  encrypt_integer (some key) plaintext ciphertext ciphertext_len = (
    some (num_bytes key.n2),
    do
      fail_if (not ciphertext || ltb ciphertext_len (num_bytes key.n2)) invalid_cipher_text
      settle zn none do
        try unset ctx_new
        try unset get
        try unset get
        msg ← try unset (set_word plaintext)
        c ← encrypt_openssl bn mx zn fuel key 0 msg
        output bn c,
  )

  -- `ciphertext` is whether the pointer for the result is there.
  unfoldable pub encrypt_to_ciphertext :
      Option PublicKey → Option (List ℕ) → Bool → Action W PaillierStatus (Option Ciphertext)
  encrypt_to_ciphertext none plaintext ciphertext = fail invalid_key
  encrypt_to_ciphertext (some key) none ciphertext = fail invalid_plain_text
  encrypt_to_ciphertext (some key) (some plaintext) ciphertext = do
    fail_if (ltb (num_bytes key.n) (length plaintext)) invalid_plain_text
    fail_if (not ciphertext) invalid_cipher_text
    try out_of_memory calloc
    settle zn none do
      try unset get
      try unset get
      try unset ctx_new
      try unset get
      msg ← try unset (bin2bn plaintext)
      fail_if (leb key.n msg) invalid_plain_text
      (c, r) ← encrypt_loop bn mx zn fuel key 0 msg (fail unset)
      pure (some (record { ciphertext = c; r = r }))

module _ {W : Type 0} (bn : Bignum W) (mx : Modexp W) (zn : Integers W) where
  open bn use {ctx_new, get, bin2bn}
  open mx use {num_bytes}

  -- The number that a ciphertext holds, and the check of its range.
  unfoldable pub read_ciphertext : PrivateKey → List ℕ → Action W PaillierStatus ℕ
  read_ciphertext key ciphertext = do
    try unset get
    try unset get
    c ← try unset (bin2bn ciphertext)
    fail_if (leb key.public.n2 c) invalid_cipher_text
    pure c

  unfoldable pub decrypt : Option PrivateKey → Option (List ℕ) → Bool → ℕ → Written W
  decrypt none ciphertext plaintext plaintext_len = (none, fail invalid_key)
  decrypt (some key) none plaintext plaintext_len = (none, fail invalid_cipher_text)
  decrypt (some key) (some ciphertext) plaintext plaintext_len =
      if ltb (num_bytes key.public.n2) (length ciphertext)
      then (none, fail invalid_cipher_text)
      else (
        some (num_bytes key.public.n),
        do
          fail_if (not plaintext || ltb plaintext_len (num_bytes key.public.n)) invalid_plain_text
          try out_of_memory ctx_new
          settle zn none do
            c ← read_ciphertext key ciphertext
            msg ← decrypt_openssl_internal bn mx zn key c 0
            output bn msg,
      )

  -- The ciphertext is not tested for NULL. Returns what is stored at `plaintext`.
  unfoldable pub decrypt_integer :
      Option PrivateKey → List ℕ → Bool → Action W PaillierStatus (Option ℕ)
  decrypt_integer none ciphertext plaintext = fail invalid_key
  decrypt_integer (some key) ciphertext plaintext = do
    fail_if (ltb (num_bytes key.public.n2) (length ciphertext)) invalid_cipher_text
    fail_if (not plaintext) invalid_plain_text
    try out_of_memory ctx_new
    settle zn none do
      c ← read_ciphertext key ciphertext
      msg ← decrypt_openssl_internal bn mx zn key c 0
      fail_if (ltb 8 (num_bytes msg)) invalid_plain_text
      pure (some (zn.get_word msg))
