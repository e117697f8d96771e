-- ===== src/Paillier/RoundTrip.antt =====
-- Encryption, the operations and decryption, one after the other.
use audit_mpc_lib.Common.{
  ℕ, ◌+◌, ◌%◌, ◌^◌, ◌<◌, ◌≤◌, ◌≡◌, ◌≢◌, List, length, Option, none, some, true, Call, Action, fail,
  ◌>>=◌, from_bytes, Yields, Yields-bind, Yields-weaken, arith,
}
use native.Mathlib.Nat.{mod-lt}
use audit_mpc_lib.Bignum.{Bignum, Documented}
use audit_mpc_lib.Bignum.Modexp.{Modexp, ModexpDocumented}
use audit_mpc_lib.Bignum.Integers.{Integers, IntegersDocumented}
use audit_mpc_lib.Paillier.Cipher.{PaillierStatus, unknown, PublicKey, PrivateKey}
use audit_mpc_lib.Paillier.Cipher.Honest.{IsPrivateKey, Spins}
use audit_mpc_lib.Paillier.Messages.{encrypt, encrypt_integer, decrypt, decrypt_integer}
use audit_mpc_lib.Paillier.Messages.Bytes.{IsCiphertext, Stores, Prints}
use audit_mpc_lib.Paillier.Messages.Honest.{
  encrypt_lem, encrypt_integer_lem, decrypt_lem, decrypt_integer_lem,
}
use audit_mpc_lib.Paillier.Homomorphic.{add}
use audit_mpc_lib.Paillier.Homomorphic.Arithmetic.{add_lem}

-- What goes on with a result that was written.
abbrev pub with_written :
    {W A B : Type 0} → Option A → (A → Action W PaillierStatus B) → Action W PaillierStatus B
with_written none k = fail unknown
with_written (some a) k = k a

module _ {W R : Type 0} (given : R) (bn : Bignum W) (law : Documented R bn) (mx : Modexp W)
    (mlaw : ModexpDocumented R mx bn.bn2bin) (zn : Integers W) (zlaw : IntegersDocumented R zn mx)
    (calloc : Call W (Unit {0})) (fuel : ℕ) where
  on_stored :
      {B : Type 0} (Q : PaillierStatus → Type 0) (P : B → Type 0) (key : PublicKey) (m : ℕ)
      {call : Action W PaillierStatus (Option (List ℕ))} (k : List ℕ → Action W PaillierStatus B)
      → Yields Q (Stores mx key m) call
      → ((s : List ℕ) → IsCiphertext mx key m s → Yields Q P (k s))
      → Yields Q P (call >>= λ o. with_written o k)
  on_stored Q P key m k y h = Yields-bind Q y λ o st. rw st.written (h st.bytes st.holds)

  -- The bytes of a number below n that is not zero, encrypted with the public part of a good key and
  -- decrypted with the key, give bytes of the number; or the rounds of the encryption have run out,
  -- of which one is enough where every draw is coprime with n.
  pub encrypt-decrypt :
      (key : PrivateKey) (plaintext : List ℕ) (ciphertext_len plaintext_len : ℕ)
      → IsPrivateKey key
      → length plaintext ≤ mx.num_bytes key.public.n
      → from_bytes 0 plaintext < key.public.n
      → from_bytes 0 plaintext ≢ 0
      → mx.num_bytes key.public.n2 ≤ ciphertext_len
      → mx.num_bytes key.public.n ≤ plaintext_len
      → Yields (Spins bn fuel key.public) (Prints (from_bytes 0 plaintext)) (
          (encrypt bn mx zn calloc fuel (some key.public) (some plaintext) true ciphertext_len).1
          >>= λ o. with_written o λ s. (decrypt bn mx zn (some key) (some s) true plaintext_len).1)
  encrypt-decrypt key plaintext ciphertext_len plaintext_len good short small pos room room' =
      on_stored (Spins bn fuel key.public) (Prints (from_bytes 0 plaintext)) key.public
        (from_bytes 0 plaintext) (λ s. (decrypt bn mx zn (some key) (some s) true plaintext_len).1)
        (encrypt_lem given bn law mx mlaw zn zlaw calloc fuel key.public plaintext ciphertext_len
          good.public short small room)
        λ s h.
          Yields-weaken (λ o p. p) (λ e bad. absurd bad)
            (decrypt_lem given bn law mx mlaw zn zlaw key (from_bytes 0 plaintext) s plaintext_len
              good small pos h room')

  -- Two integers, encrypted with the public part of a good key, added as ciphertexts and decrypted,
  -- give the sum modulo n, where that is below 2 ^ 64; or the rounds of an encryption have run out,
  -- of which one is enough where every draw is coprime with n.
  pub encrypt_integer-add-decrypt_integer :
      (key : PrivateKey) (a b ciphertext_len : ℕ)
      → IsPrivateKey key
      → (a + b) % key.public.n < 2 ^ 64
      → mx.num_bytes key.public.n2 ≤ ciphertext_len
      → Yields
          (Spins bn fuel key.public)
          (λ o. o ≡ some ((a + b) % key.public.n))
          ((encrypt_integer bn mx zn calloc fuel (some key.public) a true ciphertext_len).1 >>= λ o.
            with_written o λ s.
              (encrypt_integer bn mx zn calloc fuel (some key.public) b true ciphertext_len).1
              >>= λ o'. with_written o' λ t.
                (add bn mx zn (some key.public) (some s) (some t) true ciphertext_len).1 >>= λ o''.
                with_written o'' λ u. decrypt_integer bn mx zn (some key) u true)
  encrypt_integer-add-decrypt_integer key a b ciphertext_len good small room =
      on_stored Q P key.public a
        (λ s.
          (encrypt_integer bn mx zn calloc fuel (some key.public) b true ciphertext_len).1 >>= λ o'.
          with_written o' λ t.
            (add bn mx zn (some key.public) (some s) (some t) true ciphertext_len).1 >>= λ o''.
            with_written o'' λ u. decrypt_integer bn mx zn (some key) u true)
        (encrypt_integer_lem given bn law mx mlaw zn zlaw calloc fuel key.public a ciphertext_len
          good.public room)
        λ s hs.
          on_stored Q P key.public b
            (λ t.
              (add bn mx zn (some key.public) (some s) (some t) true ciphertext_len).1 >>= λ o''.
              with_written o'' λ u. decrypt_integer bn mx zn (some key) u true)
            (encrypt_integer_lem given bn law mx mlaw zn zlaw calloc fuel key.public b
              ciphertext_len good.public room)
            λ t ht.
              on_stored Q P key.public ((a + b) % key.public.n)
                (λ u. decrypt_integer bn mx zn (some key) u true)
                (Yields-weaken (λ o p. p) (λ e bad. absurd bad)
                  (add_lem given bn law mx mlaw zn zlaw key.public a b s t ciphertext_len
                    good.public hs ht room))
                λ u hu.
                  Yields-weaken (λ o p. p) (λ e bad. absurd bad)
                    (decrypt_integer_lem given bn law mx mlaw zn zlaw key ((a + b) % key.public.n) u
                      good (mod-lt (a + b) {m = key.public.n} (omega (arith, good.public.big)))
                      small hu)
    where
      Q : PaillierStatus → Type 0
      Q = Spins bn fuel key.public

      P : Option ℕ → Type 0
      P o = o ≡ some ((a + b) % key.public.n)
