-- ===== src/Paillier/Homomorphic/Honest.antt =====
-- The operations on ciphertexts compute with the plaintexts, where the library's calls succeed.
use audit_mpc_lib.Common.{
  ℕ, ◌+◌, ◌-◌, ◌*◌, ◌%◌, ◌^◌, ◌<◌, ◌≤◌, ◌≡◌, refl, sym, ap, ◌∙◌, subst, List, length, none, some,
  true, Action, try, ◌>>=◌, from_bytes, Yields, Yields-pure, Yields-bind, Yields-call, Yields-known,
  Yields-weaken, Yields-passes, arith, ge→ltb,
}
use audit_mpc_lib.Bignum.{Bignum, Documented}
use audit_mpc_lib.Bignum.Modexp.{Modexp, ModexpDocumented}
use audit_mpc_lib.Bignum.Integers.{Integers, IntegersDocumented}
use audit_mpc_lib.Paillier.Units.{Invertible, Invertible-found}
use audit_mpc_lib.Paillier.Encryption.{
  Encrypts, Encrypts-mul, Encrypts-pow, Encrypts-Coprime, Encrypts-Invertible_square,
  Encrypts-inverse,
}
use audit_mpc_lib.Paillier.Cipher.{
  PaillierStatus, invalid_cipher_text, out_of_memory, unset, PublicKey,
}
use audit_mpc_lib.Paillier.Cipher.Rules.{Own, settle_rule}
use audit_mpc_lib.Paillier.Cipher.Honest.{IsKey, coprime_passes}
use audit_mpc_lib.Paillier.Messages.Bytes.{IsCiphertext, Stores, output-Stores, room_test}
use audit_mpc_lib.Paillier.Messages.Honest.{below_square}
use audit_mpc_lib.Paillier.Homomorphic.{
  fits, with_result, read_pair, read_with_integer, read_with_plaintext, on_pair, on_integer,
}

-- What the readers return.
abbrev pub Both : ℕ → ℕ → ℕ × ℕ → Type 0
Both a b p = (p.0 ≡ a) × (p.1 ≡ b)

module _ {W R : Type 0} (given : R) (bn : Bignum W) (law : Documented R bn) (mx : Modexp W)
    (mlaw : ModexpDocumented R mx bn.bn2bin) (zn : Integers W)
    (zlaw : IntegersDocumented R zn mx) where
  pub with_result_lem :
      (Q : PaillierStatus → Type 0) (key : PublicKey) (m result_len : ℕ)
      {operation : Action W PaillierStatus ℕ}
      → Own Q
      → IsKey key
      → mx.num_bytes key.n2 ≤ result_len
      → Yields Q (Encrypts key.n m) operation
      → Yields Q (Stores mx key m) (with_result bn mx zn key true result_len operation).1
  unfolding with_result
  with_result_lem Q key m result_len own good room y =
      Yields-passes Q invalid_cipher_text (room_test (mx.num_bytes key.n2) result_len room) (
        Yields-call Q given out_of_memory bn.ctx_new law.ctx_new_lem λ _ _.
          settle_rule zn Q none own (
            Yields-call Q given unset bn.get law.get_lem λ _ _.
              Yields-call Q given unset bn.get law.get_lem λ _ _.
                Yields-call Q given unset bn.get law.get_lem λ _ _. Yields-bind Q y λ c h.
                  output-Stores given bn law mx mlaw zn zlaw Q key m c good h
                    (below_square given bn law mx mlaw zn zlaw key m c good h)))

  pub fits_lem :
      (key : PublicKey) (m : ℕ) (s : List ℕ)
      → IsCiphertext mx key m s
      → fits bn mx zn key (some s) ≡ true
  unfolding fits
  fits_lem key m s h = rw (ge→ltb (mx.num_bytes key.n2) (length s) h.short)

  read_pair_lem :
      (Q : PaillierStatus → Type 0) (key : PublicKey) (k m : ℕ) (a b : List ℕ)
      → IsKey key
      → IsCiphertext mx key k a
      → IsCiphertext mx key m b
      → Yields Q (Both (from_bytes 0 a) (from_bytes 0 b)) (read_pair bn mx zn key a b)
  unfolding read_pair
  read_pair_lem Q key k m a b good ha hb =
      Yields-call Q given unset (bn.bin2bn a) (law.bin2bn_lem a) λ x ex. rw ex (
        Yields-call Q given unset (bn.bin2bn b) (law.bin2bn_lem b) λ y ey. rw ey (
          coprime_passes given bn law mx mlaw zn zlaw Q (from_bytes 0 a) key.n invalid_cipher_text
            (λ bad. absurd (bad (Encrypts-Coprime key.n good.big k (from_bytes 0 a) ha.encrypts)))
            λ _.
              coprime_passes given bn law mx mlaw zn zlaw Q (from_bytes 0 b) key.n
                invalid_cipher_text
                (λ bad.
                  absurd (bad (Encrypts-Coprime key.n good.big m (from_bytes 0 b) hb.encrypts)))
                λ _. Yields-pure Q (from_bytes 0 a, from_bytes 0 b) (refl, refl)))

  read_with_integer_lem :
      (Q : PaillierStatus → Type 0) (key : PublicKey) (k : ℕ) (a : List ℕ) (b : ℕ)
      → IsKey key
      → IsCiphertext mx key k a
      → Yields Q (Both (from_bytes 0 a) b) (read_with_integer bn mx zn key a b)
  unfolding read_with_integer
  read_with_integer_lem Q key k a b good ha =
      Yields-call Q given unset (bn.bin2bn a) (law.bin2bn_lem a) λ x ex. rw ex (
        Yields-call Q given unset (bn.set_word b) (law.set_word_lem b) λ y ey. rw ey (
          coprime_passes given bn law mx mlaw zn zlaw Q (from_bytes 0 a) key.n invalid_cipher_text
            (λ bad. absurd (bad (Encrypts-Coprime key.n good.big k (from_bytes 0 a) ha.encrypts)))
            λ _. Yields-pure Q (from_bytes 0 a, b) (refl, refl)))

  pub read_with_plaintext_lem :
      (Q : PaillierStatus → Type 0) (key : PublicKey) (k : ℕ) (a b : List ℕ)
      → IsKey key
      → IsCiphertext mx key k a
      → Yields Q (Both (from_bytes 0 a) (from_bytes 0 b)) (read_with_plaintext bn mx zn key a b)
  unfolding read_with_plaintext
  read_with_plaintext_lem Q key k a b good ha =
      Yields-call Q given unset (bn.bin2bn a) (law.bin2bn_lem a) λ x ex. rw ex (
        Yields-call Q given unset (bn.bin2bn b) (law.bin2bn_lem b) λ y ey. rw ey (
          coprime_passes given bn law mx mlaw zn zlaw Q (from_bytes 0 a) key.n invalid_cipher_text
            (λ bad. absurd (bad (Encrypts-Coprime key.n good.big k (from_bytes 0 a) ha.encrypts)))
            λ _. Yields-pure Q (from_bytes 0 a, from_bytes 0 b) (refl, refl)))

  pub on_pair_lem :
      (Q : PaillierStatus → Type 0) (key : PublicKey) (k m sum : ℕ) (a b : List ℕ) (result_len : ℕ)
      (compute : PublicKey → ℕ × ℕ → Action W PaillierStatus ℕ)
      → Own Q
      → IsKey key
      → IsCiphertext mx key k a
      → IsCiphertext mx key m b
      → mx.num_bytes key.n2 ≤ result_len
      → Yields Q (Encrypts key.n sum) (compute key (from_bytes 0 a, from_bytes 0 b))
      → Yields Q
          (Stores mx key sum)
          (on_pair bn mx zn (some key) (some a) (some b) true result_len compute).1
  unfolding on_pair
  on_pair_lem Q key k m sum a b result_len compute own good ha hb room y =
      rw (fits_lem key k a ha, fits_lem key m b hb)
        (with_result_lem Q key sum result_len own good room (
          Yields-bind Q (read_pair_lem Q key k m a b good ha hb) λ p e.
            subst (λ p. Yields Q (Encrypts key.n sum) (compute key p)) (λ i. (sym e.0 i, sym e.1 i))
              y))

  pub on_integer_lem :
      (Q : PaillierStatus → Type 0) (key : PublicKey) (k sum : ℕ) (a : List ℕ) (b result_len : ℕ)
      (compute : PublicKey → ℕ × ℕ → Action W PaillierStatus ℕ)
      → Own Q
      → IsKey key
      → IsCiphertext mx key k a
      → mx.num_bytes key.n2 ≤ result_len
      → Yields Q (Encrypts key.n sum) (compute key (from_bytes 0 a, b))
      → Yields Q
          (Stores mx key sum)
          (on_integer bn mx zn (some key) (some a) b true result_len compute).1
  unfolding on_integer
  on_integer_lem Q key k sum a b result_len compute own good ha room y = rw (fits_lem key k a ha) (
      with_result_lem Q key sum result_len own good room (
        Yields-bind Q (read_with_integer_lem Q key k a b good ha) λ p e.
          subst (λ p. Yields Q (Encrypts key.n sum) (compute key p)) (λ i. (sym e.0 i, sym e.1 i))
            y))

  square_positive : (key : PublicKey) → IsKey key → 0 < key.n2
  square_positive key good = rw good.square (grind (arith, good.big))

  -- A product of two encryptions modulo n2.
  pub multiplied :
      (Q : PaillierStatus → Type 0) (key : PublicKey) (k m c d : ℕ)
      → IsKey key
      → Encrypts key.n k c
      → Encrypts key.n m d
      → Yields Q (Encrypts key.n ((k + m) % key.n)) (try unset (bn.mod_mul c d key.n2))
  multiplied Q key k m c d good h h' =
      Yields-weaken
        (λ r e.
          subst (Encrypts key.n ((k + m) % key.n)) (sym (e ∙ ap (λ q. c * d % q) good.square))
            (Encrypts-mul key.n k m c d h h'))
        (λ e q. q)
        (Yields-known Q given unset (bn.mod_mul c d key.n2)
          λ w. law.mod_mul_lem c d key.n2 w (square_positive key good))

  -- The quotient of two encryptions modulo n2.
  pub divided :
      (Q : PaillierStatus → Type 0) (key : PublicKey) (k m c d : ℕ)
      → IsKey key
      → Encrypts key.n k c
      → Encrypts key.n m d
      → Yields Q
          (Encrypts key.n ((k + (key.n - m % key.n)) % key.n))
          (do d' ← try unset (bn.mod_inverse d key.n2); try unset (bn.mod_mul c d' key.n2))
  divided Q key k m c d good h h' =
      Yields-call Q given unset (bn.mod_inverse d key.n2)
        (λ w.
          Invertible-found R _ key.n2 d (bn.mod_inverse d key.n2 w).0
            (subst (λ q. Invertible q d) (sym good.square)
              (Encrypts-Invertible_square key.n good.big m d h'))
            (law.mod_inverse_lem d key.n2 w (square_positive key good)))
        λ x e. multiplied Q key k (key.n - m % key.n) c x good h (
          Encrypts-inverse key.n good.big m d x h' (subst (λ q. x < q) good.square e.0)
            (subst (λ q. d * x % q ≡ 1 % q) good.square e.1))

  pub raised :
      (Q : PaillierStatus → Type 0) (key : PublicKey) (k b c : ℕ)
      → IsKey key
      → Encrypts key.n k c
      → Yields Q (Encrypts key.n (b * k % key.n)) (try unset (mx.mod_exp c b key.n2))
  raised Q key k b c good h =
      Yields-weaken
        (λ r e.
          subst (Encrypts key.n (b * k % key.n)) (sym (e ∙ ap (λ q. c ^ b % q) good.square))
            (Encrypts-pow key.n k b c h))
        (λ e q. q)
        (Yields-known Q given unset (mx.mod_exp c b key.n2)
          λ w. mlaw.mod_exp_lem c b key.n2 w (square_positive key good))
