-- ===== src/Paillier/Codec.antt =====
-- The byte formats of the keys: paillier_public_key_n, _size, _serialize and _deserialize,
-- paillier_private_key_n, _get_public, _serialize and _deserialize. Buffers and the outcomes of the
-- model's own are those of Pedersen/Codec: a read behind the buffer's end and, where `asserts` says that
-- the build keeps them, a failed assert.
pub mod RoundTrip
pub mod Bounds
mod Tests
use audit_mpc_lib.Common.{
  ℕ, ◌+◌, ◌*◌, ◌%◌, ◌^◌, Bool, true, false, not, ◌&&◌, ◌||◌, ltb, ◌==◌, if◌then◌else◌, Option, none,
  some, List, ◌++◌, length, Action, Call, pure, fail, fail_if, try, ◌>>=◌, ◌>>◌, sub64, put32,
}
use audit_mpc_lib.Bignum.{Bignum}
use audit_mpc_lib.Bignum.Modexp.{Modexp}
use audit_mpc_lib.Bignum.Integers.{Integers}
use audit_mpc_lib.Pedersen.{min_key_len_in_bits}
use audit_mpc_lib.Pedersen.Codec.{CodecStatus, refused, aborted, read32, bin2bn_at}
use audit_mpc_lib.Paillier.Cipher.{
  PaillierStatus, keylen_too_short, invalid_key, invalid_param, PublicKey, PrivateKey, report,
}
use audit_mpc_lib.Paillier.Messages.{Written}

module _ {W : Type 0} (bn : Bignum W) (mx : Modexp W) (zn : Integers W) where
  open bn use {bn2bin, bin2bn, get, ctx_new, mod_inverse}
  open mx use {num_bytes, num_bits, mul, sub}
  open zn use {sqr, add_word}

  -- The bytes of n, as paillier_public_key_n and paillier_private_key_n write them.
  unfoldable pub write_n : ℕ → Bool → ℕ → Written W
  write_n n there n_len = if not there && ltb 0 n_len then (none, fail invalid_param) else (
    some (num_bytes n),
    do
      fail_if (ltb n_len (num_bytes n)) keylen_too_short
      if ltb 0 (length (bn2bin n)) then pure (some (bn2bin n)) else report zn none,
  )

  unfoldable pub public_key_n : Option PublicKey → Bool → ℕ → Written W
  public_key_n none there n_len = (none, fail invalid_key)
  public_key_n (some key) there n_len = write_n key.n there n_len

  unfoldable pub private_key_n : Option PrivateKey → Bool → ℕ → Written W
  private_key_n none there n_len = (none, fail invalid_key)
  private_key_n (some key) there n_len = write_n key.public.n there n_len

  unfoldable pub public_key_size : Option PublicKey → ℕ
  public_key_size (some key) = num_bytes key.n * 8 % 2 ^ 32
  public_key_size none = 0

  -- The buffer and the real length.
  unfoldable pub public_key_serialize : Option PublicKey → Bool → ℕ → Option (List ℕ) × Option ℕ
  public_key_serialize none buffer buffer_len = (none, none)
  public_key_serialize (some key) buffer buffer_len =
      let n_len = num_bytes key.n in
      let needed_len = (4 + n_len) % 2 ^ 32 in
      (
        if not buffer || ltb buffer_len needed_len
            then none
            else some (put32 n_len ++ bn2bin key.n),
        some needed_len,
      )

  -- `if (!n) goto cleanup`
  unfoldable pub present : Option ℕ → Action W CodecStatus ℕ
  present none = fail refused
  present (some n) = pure n

  unfoldable pub public_key_deserialize :
      Bool → Call W (Unit {0}) → Option (List ℕ) → ℕ → Action W CodecStatus PublicKey
  public_key_deserialize asserts calloc none buffer_len = fail refused
  public_key_deserialize asserts calloc (some buffer) buffer_len = do
    fail_if (ltb buffer_len 36) refused
    try refused calloc
    len ← read32 buffer 0
    fail_if (asserts && not (len == sub64 buffer_len 4)) aborted
    fail_if (ltb (sub64 buffer_len 4) len) refused
    n ← bin2bn_at bn buffer 4 len
    try refused get
    n ← present n
    fail_if (ltb (num_bits n) min_key_len_in_bits) refused
    try refused ctx_new
    n2 ← try refused (sqr n)
    pure (record { n = n; n2 = n2 })

  -- The assert compares the lengths of the two primes.
  unfoldable pub private_key_serialize :
      Bool → Option PrivateKey → Bool → ℕ → Action W CodecStatus (Option (List ℕ) × Option ℕ)
  private_key_serialize asserts none buffer buffer_len = pure (none, none)
  private_key_serialize asserts (some key) buffer buffer_len = do
    let p_len = num_bytes key.p
    fail_if (asserts && not (p_len == num_bytes key.q)) aborted
    let needed_len = (4 + 2 * p_len % 2 ^ 32) % 2 ^ 32
    pure (
      if not buffer || ltb buffer_len needed_len
          then none
          else some (put32 p_len ++ (bn2bin key.p ++ bn2bin key.q)),
      some needed_len,
    )

  -- The numbers that a key is computed from.
  unfoldable pub derive_key : ℕ → ℕ → Action W CodecStatus PrivateKey
  derive_key p q = do
    try refused ctx_new
    n ← try refused (mul p q)
    n2 ← try refused (sqr n)
    lamda ← try refused (sub n p)
    lamda ← try refused (sub lamda q)
    lamda ← try refused (add_word lamda 1)
    mu ← try refused (mod_inverse lamda n)
    fail_if (ltb (num_bits n) min_key_len_in_bits) refused
    pure (record { public = record { n = n; n2 = n2 }; p = p; q = q; lamda = lamda; mu = mu })

  -- `2 * len` is a product of 32 bits.
  unfoldable pub private_key_deserialize :
      Bool → Call W (Unit {0}) → Option (List ℕ) → ℕ → Action W CodecStatus PrivateKey
  private_key_deserialize asserts calloc none buffer_len = fail refused
  private_key_deserialize asserts calloc (some buffer) buffer_len = do
    fail_if (ltb buffer_len 36) refused
    try refused calloc
    len ← read32 buffer 0
    fail_if (asserts && not (2 * len % 2 ^ 32 == sub64 buffer_len 4)) aborted
    fail_if (ltb (sub64 buffer_len 4) (2 * len % 2 ^ 32)) refused
    p ← bin2bn_at bn buffer 4 len
    q ← bin2bn_at bn buffer (4 + len) len
    try refused get
    try refused get
    try refused get
    try refused get
    p ← present p
    q ← present q
    derive_key p q

unfoldable pub private_key_get_public : Option PrivateKey → Option PublicKey
private_key_get_public none = none
private_key_get_public (some key) = some key.public
