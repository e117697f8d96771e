-- ===== src/Paillier/Messages/Honest.antt =====
-- Encryption of bytes and of integers, and decryption, where the library's calls succeed.
use native.Mathlib.Nat.{mod-lt}
use audit_mpc_lib.Common.{
  ℕ, ◌+◌, ◌*◌, ◌^◌, ◌<◌, ◌≤◌, ◌≡◌, ◌≢◌, refl, ap, List, length, Option, none, some, true, Call,
  Action, pure, fail_if, ◌>>=◌, from_bytes, Yields, Yields-pure, Yields-bind, Yields-call,
  Yields-passes, arith, ltb, ge→ltb,
}
use audit_mpc_lib.Bignum.{Bignum, Documented}
use audit_mpc_lib.Bignum.Modexp.{Modexp, ModexpDocumented}
use audit_mpc_lib.Bignum.Integers.{Integers, IntegersDocumented}
use audit_mpc_lib.Paillier.Coprime.{Coprime}
use audit_mpc_lib.Paillier.Encryption.{Encrypts}
use audit_mpc_lib.Paillier.Cipher.{
  PaillierStatus, unknown, invalid_plain_text, invalid_cipher_text, out_of_memory, unset, PublicKey,
  PrivateKey, encrypt_openssl, decrypt_openssl_internal,
}
use audit_mpc_lib.Paillier.Cipher.Rules.{settle_rule}
use audit_mpc_lib.Paillier.Cipher.Honest.{
  IsKey, IsPrivateKey, Spins, encrypt_openssl_lem, decrypt_openssl_internal_lem,
  decrypt_openssl_internal_accepts,
}
use audit_mpc_lib.Paillier.Messages.{
  output, encrypt, encrypt_integer, read_ciphertext, decrypt, decrypt_integer,
}
use audit_mpc_lib.Paillier.Messages.Bytes.{
  IsCiphertext, Stores, Prints, output-Stores, output-Prints, output_zero, room_test, leb_refuses,
}

module _ {W R : Type 0} (given : R) (bn : Bignum W) (law : Documented R bn) (mx : Modexp W)
    (mlaw : ModexpDocumented R mx bn.bn2bin) (zn : Integers W)
    (zlaw : IntegersDocumented R zn mx) where
  -- What encrypt_openssl returns is a remainder modulo n2.
  pub below_square : (key : PublicKey) (m c : ℕ) → IsKey key → Encrypts key.n m c → c < key.n2
  below_square key m c good h =
      rw (h.form, good.square)
        (mod-lt ((1 + m * key.n) * h.r ^ key.n) {m = key.n * key.n} (grind (arith, good.big)))

  encrypt_and_write :
      (fuel : ℕ) (key : PublicKey) (m : ℕ)
      → IsKey key
      → Yields
          (Spins bn fuel key)
          (Stores mx key m)
          (encrypt_openssl bn mx zn fuel key 0 m >>= output bn)
  encrypt_and_write fuel key m good =
      Yields-bind (Spins bn fuel key)
        (encrypt_openssl_lem given bn law mx mlaw zn zlaw fuel key 0 m good)
        λ c h.
          output-Stores given bn law mx mlaw zn zlaw (Spins bn fuel key) key m c good h
            (below_square key m c good h)

  -- The bytes of a number below n, and a buffer with room for n2: a ciphertext of the number is
  -- written, or the rounds have run out.
  pub encrypt_lem :
      (calloc : Call W (Unit {0})) (fuel : ℕ) (key : PublicKey) (plaintext : List ℕ)
      (ciphertext_len : ℕ)
      → IsKey key
      → length plaintext ≤ mx.num_bytes key.n
      → from_bytes 0 plaintext < key.n
      → mx.num_bytes key.n2 ≤ ciphertext_len
      → Yields
          (Spins bn fuel key)
          (Stores mx key (from_bytes 0 plaintext))
          (encrypt bn mx zn calloc fuel (some key) (some plaintext) true ciphertext_len).1
  unfolding encrypt
  encrypt_lem calloc fuel key plaintext ciphertext_len good short small room =
      rw (ge→ltb (mx.num_bytes key.n) (length plaintext) short) (
        Yields-passes Q invalid_cipher_text (room_test (mx.num_bytes key.n2) ciphertext_len room) (
          settle_rule zn Q none (λ e q. cc q.0)
            (Yields-call Q given unset bn.ctx_new law.ctx_new_lem λ _ _.
              Yields-call Q given unset bn.get law.get_lem λ _ _.
                Yields-call Q given unset bn.get law.get_lem λ _ _.
                  Yields-call Q given unset (bn.bin2bn plaintext) (law.bin2bn_lem plaintext)
                    λ msg e. rw e (
                      Yields-passes Q invalid_plain_text
                        (leb_refuses key.n (from_bytes 0 plaintext) small)
                        (encrypt_and_write fuel key (from_bytes 0 plaintext) good)))))
    where
      Q : PaillierStatus → Type 0
      Q = Spins bn fuel key

  pub encrypt_integer_lem :
      (calloc : Call W (Unit {0})) (fuel : ℕ) (key : PublicKey) (plaintext ciphertext_len : ℕ)
      → IsKey key
      → mx.num_bytes key.n2 ≤ ciphertext_len
      → Yields
          (Spins bn fuel key)
          (Stores mx key plaintext)
          (encrypt_integer bn mx zn calloc fuel (some key) plaintext true ciphertext_len).1
  unfolding encrypt_integer
  encrypt_integer_lem calloc fuel key plaintext ciphertext_len good room =
      Yields-passes Q invalid_cipher_text (room_test (mx.num_bytes key.n2) ciphertext_len room) (
        settle_rule zn Q none (λ e q. cc q.0)
          (Yields-call Q given unset bn.ctx_new law.ctx_new_lem λ _ _.
            Yields-call Q given unset bn.get law.get_lem λ _ _.
              Yields-call Q given unset bn.get law.get_lem λ _ _.
                Yields-call Q given unset (bn.set_word plaintext) (law.set_word_lem plaintext)
                  λ msg e. rw e (encrypt_and_write fuel key plaintext good)))
    where
      Q : PaillierStatus → Type 0
      Q = Spins bn fuel key

  read_ciphertext_lem :
      (Q : PaillierStatus → Type 0) (key : PrivateKey) (s : List ℕ)
      → from_bytes 0 s < key.public.n2
      → Yields Q (λ c. c ≡ from_bytes 0 s) (read_ciphertext bn mx zn key s)
  unfolding read_ciphertext
  read_ciphertext_lem Q key s small = Yields-call Q given unset bn.get law.get_lem λ _ _.
      Yields-call Q given unset bn.get law.get_lem λ _ _.
        Yields-call Q given unset (bn.bin2bn s) (law.bin2bn_lem s) λ c e. rw e (
          Yields-passes Q invalid_cipher_text (leb_refuses key.public.n2 (from_bytes 0 s) small)
            (Yields-pure Q (from_bytes 0 s) refl))

  -- The number that a ciphertext decrypts to, before it is written.
  decrypted :
      {A : Type 0} (Q : PaillierStatus → Type 0) (P : A → Type 0) (key : PrivateKey) (m : ℕ)
      (s : List ℕ) (write : ℕ → Action W PaillierStatus A)
      → IsPrivateKey key
      → m < key.public.n
      → IsCiphertext mx key.public m s
      → Yields Q P (write m)
      → Yields Q P (do
        c ← read_ciphertext bn mx zn key s
        msg ← decrypt_openssl_internal bn mx zn key c 0
        write msg)
  decrypted Q P key m s write good small h y =
      Yields-bind Q (read_ciphertext_lem Q key s h.below) λ c e. rw e (
        Yields-bind Q
          (decrypt_openssl_internal_lem given bn law mx mlaw zn zlaw Q key (from_bytes 0 s) 0 m good
            small h.encrypts)
          λ p f. rw f y)

  decrypt_frame :
      (Q : PaillierStatus → Type 0) (P : Option (List ℕ) → Type 0) (key : PrivateKey) (m : ℕ)
      (s : List ℕ) (plaintext_len : ℕ)
      → ((e : ℕ) → ¬ (Q (PaillierStatus.openssl e)))
      → IsPrivateKey key
      → m < key.public.n
      → IsCiphertext mx key.public m s
      → mx.num_bytes key.public.n ≤ plaintext_len
      → Yields Q P (output bn m)
      → Yields Q P (decrypt bn mx zn (some key) (some s) true plaintext_len).1
  unfolding decrypt
  decrypt_frame Q P key m s plaintext_len own good small h room y =
      rw (ge→ltb (mx.num_bytes key.public.n2) (length s) h.short) (
        Yields-passes Q invalid_plain_text
          (room_test (mx.num_bytes key.public.n) plaintext_len room)
          (Yields-call Q given out_of_memory bn.ctx_new law.ctx_new_lem
            λ _ _. settle_rule zn Q none own (decrypted Q P key m s (output bn) good small h y)))

  -- A ciphertext of any plaintext below n but zero is decrypted to the plaintext's bytes,
  pub decrypt_lem :
      (key : PrivateKey) (m : ℕ) (s : List ℕ) (plaintext_len : ℕ)
      → IsPrivateKey key
      → m < key.public.n
      → m ≢ 0
      → IsCiphertext mx key.public m s
      → mx.num_bytes key.public.n ≤ plaintext_len
      → Yields (λ _. ⊥) (Prints m) (decrypt bn mx zn (some key) (some s) true plaintext_len).1
  decrypt_lem key m s plaintext_len good small pos h room =
      decrypt_frame (λ _. ⊥) (Prints m) key m s plaintext_len (λ e no. no) good small h room
        (output-Prints given bn law mx mlaw zn zlaw (λ _. ⊥) m pos)

  -- and a ciphertext of zero is answered with PAILLIER_ERROR_UNKNOWN.
  pub decrypt_zero :
      (key : PrivateKey) (s : List ℕ) (plaintext_len : ℕ)
      → IsPrivateKey key
      → IsCiphertext mx key.public 0 s
      → mx.num_bytes key.public.n ≤ plaintext_len
      → Yields
          (λ e. e ≡ unknown)
          (λ _. ⊥)
          (decrypt bn mx zn (some key) (some s) true plaintext_len).1
  decrypt_zero key s plaintext_len good h room =
      decrypt_frame (λ e. e ≡ unknown) (λ _. ⊥) key 0 s plaintext_len (λ e no. cc no) good
        (omega (arith, good.public.big)) h room (output_zero given bn law mx mlaw zn zlaw (λ _. ⊥))

  -- Every ciphertext of a plaintext below n and 2 ^ 64 is decrypted to the integer, zero included.
  pub decrypt_integer_lem :
      (key : PrivateKey) (m : ℕ) (s : List ℕ)
      → IsPrivateKey key
      → m < key.public.n
      → m < 2 ^ 64
      → IsCiphertext mx key.public m s
      → Yields (λ _. ⊥) (λ o. o ≡ some m) (decrypt_integer bn mx zn (some key) s true)
  unfolding decrypt_integer
  decrypt_integer_lem key m s good small word h =
      Yields-passes never invalid_cipher_text
        (ge→ltb (mx.num_bytes key.public.n2) (length s) h.short)
        (Yields-call never given out_of_memory bn.ctx_new law.ctx_new_lem λ _ _.
          settle_rule zn never none (λ e no. no)
            (decrypted never (λ o. o ≡ some m) key m s
              (λ msg. fail_if (ltb 8 (mx.num_bytes msg)) invalid_plain_text >>= λ _.
                pure (some (zn.get_word msg)))
              good small h
              (Yields-passes never invalid_plain_text
                (ge→ltb 8 (mx.num_bytes m) (zlaw.num_bytes_le m 8 (omega (arith, word))))
                (Yields-pure never (some (zn.get_word m))
                  (ap (λ k. some k) (zlaw.get_word_lem m word))))))
    where
      never : PaillierStatus → Type 0
      never _ = ⊥

  -- A number that is no ciphertext, because it has a divisor in common with n, is decrypted to zero:
  -- PAILLIER_ERROR_INVALID_CIPHER_TEXT is lost on the way.
  pub decrypt_integer_accepts :
      (key : PrivateKey) (s : List ℕ)
      → length s ≤ mx.num_bytes key.public.n2
      → from_bytes 0 s < key.public.n2
      → ¬ (Coprime (from_bytes 0 s) key.public.n)
      → Yields (λ _. ⊥) (λ o. o ≡ some 0) (decrypt_integer bn mx zn (some key) s true)
  unfolding decrypt_integer
  decrypt_integer_accepts key s short small bad =
      Yields-passes never invalid_cipher_text (ge→ltb (mx.num_bytes key.public.n2) (length s) short)
        (Yields-call never given out_of_memory bn.ctx_new law.ctx_new_lem λ _ _.
          settle_rule zn never none (λ e no. no)
            (Yields-bind never (read_ciphertext_lem never key s small) λ c e. rw e (
              Yields-bind never
                (decrypt_openssl_internal_accepts given bn law mx mlaw zn zlaw never key
                  (from_bytes 0 s) 0 bad)
                λ p f. rw f (
                  Yields-passes never invalid_plain_text
                    (ge→ltb 8 (mx.num_bytes 0) (zlaw.num_bytes_le 0 8 (omega arith)))
                    (Yields-pure never (some (zn.get_word 0))
                      (ap (λ k. some k) (zlaw.get_word_lem 0 (omega arith))))))))
    where
      never : PaillierStatus → Type 0
      never _ = ⊥
