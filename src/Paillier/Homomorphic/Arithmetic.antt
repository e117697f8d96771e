-- ===== src/Paillier/Homomorphic/Arithmetic.antt =====
-- Each operation on ciphertexts, where the library's calls succeed.
use audit_mpc_lib.Common.{
  ℕ, ◌+◌, ◌-◌, ◌*◌, ◌%◌, ◌≤◌, List, length, some, true, try, ◌>>=◌, from_bytes, Yields, Yields-bind,
  ge→ltb,
}
use audit_mpc_lib.Bignum.{Bignum, Documented}
use audit_mpc_lib.Bignum.Modexp.{Modexp, ModexpDocumented}
use audit_mpc_lib.Bignum.Integers.{Integers, IntegersDocumented}
use audit_mpc_lib.Paillier.Cipher.{unset, PublicKey, encrypt_openssl}
use audit_mpc_lib.Paillier.Cipher.Honest.{IsKey, Spins, encrypt_openssl_lem}
use audit_mpc_lib.Paillier.Messages.Bytes.{IsCiphertext, Stores}
use audit_mpc_lib.Paillier.Homomorphic.{add, sub, add_integer, sub_integer, mul_integer, mul}
use audit_mpc_lib.Paillier.Homomorphic.Honest.{
  with_result_lem, fits_lem, read_with_plaintext_lem, on_pair_lem, on_integer_lem, multiplied,
  divided, raised,
}

module _ {W R : Type 0} (given : R) (bn : Bignum W) (law : Documented R bn) (mx : Modexp W)
    (mlaw : ModexpDocumented R mx bn.bn2bin) (zn : Integers W)
    (zlaw : IntegersDocumented R zn mx) where
  -- Two ciphertexts and a buffer with room for n2: a ciphertext of the sum modulo n is written.
  pub add_lem :
      (key : PublicKey) (k m : ℕ) (a b : List ℕ) (result_len : ℕ)
      → IsKey key
      → IsCiphertext mx key k a
      → IsCiphertext mx key m b
      → mx.num_bytes key.n2 ≤ result_len
      → Yields
          (λ _. ⊥)
          (Stores mx key ((k + m) % key.n))
          (add bn mx zn (some key) (some a) (some b) true result_len).1
  unfolding add
  add_lem key k m a b result_len good ha hb room =
      on_pair_lem given bn law mx mlaw zn zlaw (λ _. ⊥) key k m ((k + m) % key.n) a b result_len
        (λ key (a, b). try unset (bn.mod_mul a b key.n2)) (λ e bad. bad) good ha hb room
        (multiplied given bn law mx mlaw zn zlaw (λ _. ⊥) key k m (from_bytes 0 a) (from_bytes 0 b)
          good ha.encrypts hb.encrypts)

  -- Two ciphertexts and a buffer with room for n2: a ciphertext of the difference modulo n is written.
  pub sub_lem :
      (key : PublicKey) (k m : ℕ) (a b : List ℕ) (result_len : ℕ)
      → IsKey key
      → IsCiphertext mx key k a
      → IsCiphertext mx key m b
      → mx.num_bytes key.n2 ≤ result_len
      → Yields
          (λ _. ⊥)
          (Stores mx key ((k + (key.n - m % key.n)) % key.n))
          (sub bn mx zn (some key) (some a) (some b) true result_len).1
  unfolding sub
  sub_lem key k m a b result_len good ha hb room =
      on_pair_lem given bn law mx mlaw zn zlaw (λ _. ⊥) key k m ((k + (key.n - m % key.n)) % key.n)
        a b result_len
        (λ key (a, b).
          try unset (bn.mod_inverse b key.n2) >>= λ b. try unset (bn.mod_mul a b key.n2))
        (λ e bad. bad) good ha hb room
        (divided given bn law mx mlaw zn zlaw (λ _. ⊥) key k m (from_bytes 0 a) (from_bytes 0 b)
          good ha.encrypts hb.encrypts)

  pub add_integer_lem :
      (fuel : ℕ) (key : PublicKey) (k b : ℕ) (a : List ℕ) (result_len : ℕ)
      → IsKey key
      → IsCiphertext mx key k a
      → mx.num_bytes key.n2 ≤ result_len
      → Yields
          (Spins bn fuel key)
          (Stores mx key ((k + b) % key.n))
          (add_integer bn mx zn fuel (some key) (some a) b true result_len).1
  unfolding add_integer
  add_integer_lem fuel key k b a result_len good ha room =
      on_integer_lem given bn law mx mlaw zn zlaw (Spins bn fuel key) key k ((k + b) % key.n) a b
        result_len
        (λ key (a, b).
          encrypt_openssl bn mx zn fuel key 0 b >>= λ res. try unset (bn.mod_mul a res key.n2))
        (λ e q. cc q.0) good ha room
        (Yields-bind (Spins bn fuel key)
          (encrypt_openssl_lem given bn law mx mlaw zn zlaw fuel key 0 b good)
          λ c h.
            multiplied given bn law mx mlaw zn zlaw (Spins bn fuel key) key k b (from_bytes 0 a) c
              good ha.encrypts h)

  -- A ciphertext and an integer: a ciphertext of the difference modulo n is written, or the rounds
  -- of the encryption have run out.
  pub sub_integer_lem :
      (fuel : ℕ) (key : PublicKey) (k b : ℕ) (a : List ℕ) (result_len : ℕ)
      → IsKey key
      → IsCiphertext mx key k a
      → mx.num_bytes key.n2 ≤ result_len
      → Yields
          (Spins bn fuel key)
          (Stores mx key ((k + (key.n - b % key.n)) % key.n))
          (sub_integer bn mx zn fuel (some key) (some a) b true result_len).1
  unfolding sub_integer
  sub_integer_lem fuel key k b a result_len good ha room =
      on_integer_lem given bn law mx mlaw zn zlaw (Spins bn fuel key) key k
        ((k + (key.n - b % key.n)) % key.n) a b result_len
        (λ key (a, b). encrypt_openssl bn mx zn fuel key 0 b >>= λ res.
          try unset (bn.mod_inverse res key.n2) >>= λ res. try unset (bn.mod_mul a res key.n2))
        (λ e q. cc q.0) good ha room
        (Yields-bind (Spins bn fuel key)
          (encrypt_openssl_lem given bn law mx mlaw zn zlaw fuel key 0 b good)
          λ c h.
            divided given bn law mx mlaw zn zlaw (Spins bn fuel key) key k b (from_bytes 0 a) c good
              ha.encrypts h)

  pub mul_integer_lem :
      (key : PublicKey) (k b : ℕ) (a : List ℕ) (result_len : ℕ)
      → IsKey key
      → IsCiphertext mx key k a
      → mx.num_bytes key.n2 ≤ result_len
      → Yields
          (λ _. ⊥)
          (Stores mx key (b * k % key.n))
          (mul_integer bn mx zn (some key) (some a) b true result_len).1
  unfolding mul_integer
  mul_integer_lem key k b a result_len good ha room =
      on_integer_lem given bn law mx mlaw zn zlaw (λ _. ⊥) key k (b * k % key.n) a b result_len
        (λ key (a, b). try unset (mx.mod_exp a b key.n2)) (λ e bad. bad) good ha room
        (raised given bn law mx mlaw zn zlaw (λ _. ⊥) key k b (from_bytes 0 a) good ha.encrypts)

  -- A ciphertext, the bytes of a number that are no more than those of n, and a buffer with room for
  -- n2: a ciphertext of the product modulo n is written.
  pub mul_lem :
      (key : PublicKey) (k : ℕ) (a b : List ℕ) (result_len : ℕ)
      → IsKey key
      → IsCiphertext mx key k a
      → length b ≤ mx.num_bytes key.n
      → mx.num_bytes key.n2 ≤ result_len
      → Yields
          (λ _. ⊥)
          (Stores mx key (from_bytes 0 b * k % key.n))
          (mul bn mx zn (some key) (some a) (some b) true result_len).1
  unfolding mul
  mul_lem key k a b result_len good ha short room =
      rw
        (
          fits_lem given bn law mx mlaw zn zlaw key k a ha,
          ge→ltb (mx.num_bytes key.n) (length b) short,
        )
        (with_result_lem given bn law mx mlaw zn zlaw (λ _. ⊥) key (from_bytes 0 b * k % key.n)
          result_len (λ e bad. bad) good room
          (Yields-bind (λ _. ⊥)
            (read_with_plaintext_lem given bn law mx mlaw zn zlaw (λ _. ⊥) key k a b good ha)
            λ p e.
              rw (e.0, e.1)
                (raised given bn law mx mlaw zn zlaw (λ _. ⊥) key k (from_bytes 0 b)
                  (from_bytes 0 a) good ha.encrypts)))
