-- ===== src/Paillier/Cipher.antt =====
-- Encryption and decryption of numbers: L, paillier_encrypt_openssl_internal, encrypt_openssl and
-- paillier_decrypt_openssl_internal. A call that succeeds without writing its result, as it does
-- where an error was met and none is queued, leaves the number `old` that it was handed.
pub mod Rules
pub mod Honest
use audit_mpc_lib.Common.{
  ℕ, zero, suc, Bool, true, false, not, ◌==◌, if◌then◌else◌, Option, none, some, Result, ok, err,
  Action, Call, pure, fail, fail_if, try, ◌>>=◌, ◌>>◌,
}
use audit_mpc_lib.Bignum.{Bignum}
use audit_mpc_lib.Bignum.Modexp.{Modexp}
use audit_mpc_lib.Bignum.Integers.{Integers}
use audit_mpc_lib.Paillier.{CoprimeError, failed, is_coprime_fast}

-- The codes of a refusal, PAILLIER_ERROR_...; `openssl e` is the negative number -e. The outcomes
-- `spinning`, the end of the fuel, `null_read`, a read through NULL, and `aborted`, a failed assert,
-- are the model's own.
pub data PaillierStatus : Type 0 where
  unknown keylen_too_short invalid_plain_text invalid_cipher_text invalid_randomness invalid_key
        invalid_param out_of_memory invalid_proof buffer_too_short spinning null_read aborted :
      PaillierStatus
  openssl : ℕ → PaillierStatus

-- The -1 that `ret` begins with.
abbrev pub unset : PaillierStatus
unset = openssl 1

-- `struct paillier_public_key`
pub record PublicKey : Type 0 where
  pub n : ℕ
  pub n2 : ℕ

-- `struct paillier_private_key`
pub record PrivateKey : Type 0 where
  pub public : PublicKey
  pub p : ℕ
  pub q : ℕ
  pub lamda : ℕ
  pub mu : ℕ

module _ {W : Type 0} (zn : Integers W) where
  -- `ret = ERR_get_error() * -1`: zero, a success, where no error is queued.
  unfoldable pub report : {A : Type 0} → A → Action W PaillierStatus A
  report a w = let (e, w') = zn.get_error w in if e == 0 then (ok a, w') else (err (openssl e), w')

  unfoldable pub settle_result :
      {A : Type 0} → A → Result PaillierStatus A → Action W PaillierStatus A
  settle_result old (ok a) = pure a
  settle_result old (err (openssl e)) = if e == 1 then report old else fail (openssl e)
  settle_result old (err e) = fail e

  -- `cleanup: if (-1 == ret) ret = ERR_get_error() * -1`
  unfoldable pub settle : {A : Type 0} → A → Action W PaillierStatus A → Action W PaillierStatus A
  unfolding settle_result
  settle old m w = settle_result old (m w).0 (m w).1

  unfoldable pub overwrite_result :
      {A : Type 0} → A → Result PaillierStatus A → Action W PaillierStatus A
  overwrite_result old (ok a) = report a
  overwrite_result old (err (openssl e)) = if e == 1 then fail (openssl e) else report old
  overwrite_result old (err null_read) = fail null_read
  overwrite_result old (err aborted) = fail aborted
  overwrite_result old (err spinning) = fail spinning
  overwrite_result old (err e) = report old

  -- `cleanup: if (-1 != ret) ret = ERR_get_error() * -1`
  unfoldable pub overwrite :
      {A : Type 0} → A → Action W PaillierStatus A → Action W PaillierStatus A
  unfolding overwrite_result
  overwrite old m w = overwrite_result old (m w).0 (m w).1

  unfoldable pub quotient_l : ℕ → ℕ → ℕ → Action W PaillierStatus ℕ
  quotient_l old x n = settle old do
    x_copy ← try null_read (zn.dup x)
    x_copy ← try unset (zn.sub_word x_copy 1)
    try unset (zn.div x_copy n)

-- `is_coprime_fast(...) == 1`: a failure counts as a no.
unfoldable pub coprime_result :
    {W : Type 0} → Result CoprimeError Bool → Action W PaillierStatus Bool
coprime_result (ok b) = pure b
coprime_result (err failed) = pure false
coprime_result (err CoprimeError.spinning) = fail PaillierStatus.spinning

unfoldable pub coprime : {W : Type 0} → Bignum W → ℕ → ℕ → Action W PaillierStatus Bool
unfolding coprime_result
coprime bn a b w = let r = is_coprime_fast bn a b w in coprime_result r.0 r.1

-- What happens to a ciphertext: PAILLIER_ERROR_INVALID_RANDOMNESS goes round the loop again.
unfoldable pub next_draw :
    {W : Type 0}
    → ℕ
    → Result PaillierStatus ℕ
    → Action W PaillierStatus (ℕ × ℕ)
    → Action W PaillierStatus (ℕ × ℕ)
next_draw r (ok c) again = pure (c, r)
next_draw r (err invalid_randomness) again = again
next_draw r (err e) again = fail e

module _ {W : Type 0} (bn : Bignum W) (mx : Modexp W) (zn : Integers W) where
  open bn use {get, mod_mul, rand_range}
  open mx use {mod_exp, mul}
  open zn use {add_word}

  unfoldable pub encrypt_openssl_internal : PublicKey → ℕ → ℕ → ℕ → Action W PaillierStatus ℕ
  encrypt_openssl_internal key old r plaintext = settle zn old do
    unit ← coprime bn r key.n
    fail_if (not unit) invalid_randomness
    try unset get
    try unset get
    tmp1 ← try unset (mul key.n plaintext)
    tmp1 ← try unset (add_word tmp1 1)
    tmp2 ← try unset (mod_exp r key.n key.n2)
    try unset (mod_mul tmp1 tmp2 key.n2)

  -- The loop that draws `r` until it is coprime with n; returns the ciphertext and `r`. What follows
  -- a failed draw is `broken`.
  unfoldable pub encrypt_loop :
      ℕ → PublicKey → ℕ → ℕ → Action W PaillierStatus (ℕ × ℕ) → Action W PaillierStatus (ℕ × ℕ)
  encrypt_loop zero key old plaintext broken w = fail spinning w
  encrypt_loop (suc fuel) key old plaintext broken w =
      let drawn = rand_range key.n w in
      elim drawn.0 [
        | none ↦ broken drawn.1
        | some r ↦
            let c = encrypt_openssl_internal key old r plaintext drawn.1 in
            next_draw r c.0 (encrypt_loop fuel key old plaintext broken) c.1
      ]

  unfoldable pub encrypt_openssl : ℕ → PublicKey → ℕ → ℕ → Action W PaillierStatus ℕ
  encrypt_openssl fuel key old plaintext w =
      let r = get w in
      elim r.0 [
        | none ↦ report zn old r.1
        | some _ ↦
            (do (c, r) ← encrypt_loop fuel key old plaintext (report zn (old, 0)); pure c) r.1
      ]

  unfoldable pub decrypt_openssl_internal : PrivateKey → ℕ → ℕ → Action W PaillierStatus ℕ
  decrypt_openssl_internal key ciphertext old = overwrite zn old do
    try unset get
    unit ← coprime bn ciphertext key.public.n
    fail_if (not unit) invalid_cipher_text
    tmp ← try unset (mod_exp ciphertext key.lamda key.public.n2)
    tmp ← quotient_l zn tmp tmp key.public.n
    try unset (mod_mul tmp key.mu key.public.n)
