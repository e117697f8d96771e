-- ===== src/Paillier/Cipher/Honest.antt =====
-- Encryption and decryption of numbers, where the library's calls succeed.
use audit_mpc_lib.Common.{
  ℕ, zero, suc, ◌+◌, ◌-◌, ◌*◌, ◌/◌, ◌%◌, ◌^◌, ◌<◌, ◌≤◌, ◌≡◌, refl, sym, ap, ◌∙◌, Bool, true, false,
  not, Option, none, some, Result, ok, err, Action, Documents, pure, fail_if, ◌>>=◌, Outcome,
  Yields, Yields-bind, Yields-call, Yields-known, Yields-Ensures, Yields-weaken, Yields-pure, arith,
  mul-mod_right,
}
use audit_mpc_lib.Bignum.{Bignum, Documented}
use audit_mpc_lib.Bignum.Modexp.{Modexp, ModexpDocumented}
use audit_mpc_lib.Bignum.Integers.{Integers, IntegersDocumented}
use audit_mpc_lib.Paillier.{CoprimeError, is_coprime_fast}
use audit_mpc_lib.Paillier.Coprime.{Coprime, Answers, is_coprime_fast_lem}
use audit_mpc_lib.Paillier.Units.{Invertible, Coprime_iff-Invertible}
use audit_mpc_lib.Paillier.Encryption.{Encrypts, Encrypts-Coprime, decrypt_power, decrypt_lem}
use audit_mpc_lib.Paillier.Cipher.{
  PaillierStatus, invalid_cipher_text, invalid_randomness, spinning, null_read, unset, PublicKey,
  PrivateKey, report, coprime, coprime_result, quotient_l, encrypt_openssl_internal, next_draw,
  encrypt_loop, encrypt_openssl, decrypt_openssl_internal,
}
use audit_mpc_lib.Paillier.Cipher.Rules.{Own, settle_rule, overwrite_rule, overwrite_refusal}

pub record IsKey (key : PublicKey) : Type 0 where
  pub big : 1 < key.n
  pub square : key.n2 ≡ key.n * key.n

-- `lamda` is a period of the numbers that have an inverse modulo n, and `mu` its inverse.
pub record IsPrivateKey (key : PrivateKey) : Type 0 where
  pub public : IsKey key.public
  pub period : (r : ℕ) → Invertible key.public.n r → r ^ key.lamda % key.public.n ≡ 1
  pub inverse : key.lamda * key.mu % key.public.n ≡ 1

-- The refusals of an encryption: `r` is not coprime with n.
abbrev pub BadDraw : PublicKey → ℕ → PaillierStatus → Type 0
BadDraw key r e = (e ≡ invalid_randomness) × (¬ (Coprime r key.n))

-- No number is drawn that has a common divisor with n.
abbrev pub Lucky : {W : Type 0} → Bignum W → PublicKey → Type 0
Lucky {W} bn key = (w : W) → Documents (Unit {0}) (λ r. Coprime r key.n) (bn.rand_range key.n w).0

-- The rounds have run out, of which one is enough where every draw is coprime with n.
abbrev pub Spins : {W : Type 0} → Bignum W → ℕ → PublicKey → PaillierStatus → Type 0
Spins bn fuel key e = (e ≡ spinning) × (0 < fuel → ¬ (Lucky bn key))

module _ {W R : Type 0} (given : R) (bn : Bignum W) (law : Documented R bn) (mx : Modexp W)
    (mlaw : ModexpDocumented R mx bn.bn2bin) (zn : Integers W)
    (zlaw : IntegersDocumented R zn mx) where
  coprime-Outcome :
      (P : Bool → Type 0) (Q : PaillierStatus → Type 0) (r : Result CoprimeError Bool) (w : W)
      → Outcome (λ _. ⊥) P r
      → Outcome Q P (coprime_result r w).0
  unfolding coprime_result
  coprime-Outcome P Q (ok b) w h = h
  coprime-Outcome P Q (err e) w h = absurd h

  pub coprime_lem :
      (Q : PaillierStatus → Type 0) (a b : ℕ) → Yields Q (Answers (Coprime a b)) (coprime bn a b)
  unfolding coprime
  coprime_lem Q a b = record {
    run = λ w.
        coprime-Outcome (Answers (Coprime a b)) Q (is_coprime_fast bn a b w).0
          (is_coprime_fast bn a b w).1
          ((Yields-Ensures (λ _. ⊥) given (is_coprime_fast_lem R bn law a b)).run w);
  }

  -- A test that must answer yes, and one that must answer no.
  pub coprime_passes :
      {A : Type 0} (Q : PaillierStatus → Type 0) {P : A → Type 0} (a b : ℕ) (e : PaillierStatus)
      {k : Action W PaillierStatus A}
      → (¬ (Coprime a b) → Q e)
      → (Coprime a b → Yields Q P k)
      → Yields Q P (coprime bn a b >>= λ unit. fail_if (not unit) e >>= λ _. k)
  coprime_passes Q {P} a b e {k} refused h = Yields-bind Q (coprime_lem Q a b) answered
    where
      answered :
          (unit : Bool) → Answers (Coprime a b) unit → Yields Q P (fail_if (not unit) e >>= λ _. k)
      answered true y = h (y.0 refl)
      answered false y = record { run = λ w. refused (λ c. let no : false ≡ true = y.1 c in cc) }

  -- For every `r` and every plaintext, a number that encrypts the plaintext is returned where `r` is
  -- coprime with n, and PAILLIER_ERROR_INVALID_RANDOMNESS exactly where it is not.
  pub encrypt_openssl_internal_lem :
      (key : PublicKey) (old r plaintext : ℕ)
      → IsKey key
      → Yields
          (BadDraw key r)
          (λ c. Encrypts key.n plaintext c × Coprime r key.n)
          (encrypt_openssl_internal bn mx zn key old r plaintext)
  unfolding encrypt_openssl_internal
  encrypt_openssl_internal_lem key old r plaintext good =
      settle_rule zn Q old (λ e q. cc q.0)
        (coprime_passes Q r key.n invalid_randomness (λ bad. (refl, bad))
          λ unit. Yields-call Q given unset bn.get law.get_lem λ _ _.
            Yields-call Q given unset bn.get law.get_lem λ _ _.
              Yields-call Q given unset (mx.mul key.n plaintext) (mlaw.mul_lem key.n plaintext)
                λ t e. Yields-call Q given unset (zn.add_word t 1) (zlaw.add_word_lem t 1) λ t' e'.
                  Yields-call Q given unset (mx.mod_exp r key.n key.n2)
                    (λ w. mlaw.mod_exp_lem r key.n key.n2 w positive)
                    λ p ep.
                      Yields-weaken (λ c ec. (encrypted unit t t' p c e e' ep ec, unit)) (λ e q. q)
                        (Yields-known Q given unset (bn.mod_mul t' p key.n2)
                          λ w. law.mod_mul_lem t' p key.n2 w positive))
    where
      Q : PaillierStatus → Type 0
      Q = BadDraw key r

      positive : 0 < key.n2
      positive = rw good.square (grind (arith, good.big))

      encrypted :
          Coprime r key.n
          → (t t' p c : ℕ) → t ≡ key.n * plaintext
          → t' ≡ t + 1
          → p ≡ r ^ key.n % key.n2
          → c ≡ t' * p % key.n2
          → Encrypts key.n plaintext c
      encrypted unit t t' p c e e' ep ec = record {
        r = r;
        unit = (Coprime_iff-Invertible key.n r).0 unit;
        form =
            ec
            ∙ ap (λ q. t' * q % key.n2) ep
            ∙ sym (mul-mod_right t' (r ^ key.n) key.n2)
            ∙ ap (λ q. q * r ^ key.n % key.n2) (omega (arith, e, e'))
            ∙ ap (λ q. (1 + plaintext * key.n) * r ^ key.n % q) good.square;
      }

  next_draw-Outcome :
      (fuel : ℕ) (key : PublicKey) (m r : ℕ) (res : Result PaillierStatus ℕ)
      (again : Action W PaillierStatus (ℕ × ℕ)) (w : W)
      → Outcome (BadDraw key r) (λ c. Encrypts key.n m c × Coprime r key.n) res
      → (¬ (Coprime r key.n) → Yields (Spins bn fuel key) (λ p. Encrypts key.n m p.0) again)
      → Outcome (Spins bn fuel key) (λ p. Encrypts key.n m p.0) (next_draw r res again w).0
  unfolding next_draw
  next_draw-Outcome fuel key m r (ok c) again w h y = h.0
  next_draw-Outcome fuel key m r (err invalid_randomness) again w h y = (y h.1).run w
  next_draw-Outcome fuel key m r (err e) again w h y = cc h.0

  encrypt_loop_lem :
      (fuel : ℕ) (key : PublicKey) (old m : ℕ) (broken : Action W PaillierStatus (ℕ × ℕ))
      → IsKey key
      → Yields
          (Spins bn fuel key)
          (λ p. Encrypts key.n m p.0)
          (encrypt_loop bn mx zn fuel key old m broken)
  unfolding encrypt_loop
  encrypt_loop_lem zero key old m broken good = record {
    run = λ w. (refl, λ pos. absurd (omega arith));
  }
  encrypt_loop_lem (suc fuel) key old m broken good = record {
    run = λ w.
        drawn (bn.rand_range key.n w).0 (bn.rand_range key.n w).1
          (law.rand_range_lem key.n w (omega (arith, good.big))) (λ l. l w)
          (encrypt_loop_lem fuel key old m broken good);
  }
    where
      drawn :
          (r : Option ℕ) (w : W)
          → Documents (¬ R) (λ r. r < key.n) r
          → (Lucky bn key → Documents (Unit {0}) (λ r. Coprime r key.n) r)
          → Yields
              (Spins bn fuel key)
              (λ p. Encrypts key.n m p.0)
              (encrypt_loop bn mx zn fuel key old m broken)
          → Outcome
              (Spins bn (suc fuel) key)
              (λ p. Encrypts key.n m p.0)
              (elim r as (λ _. Result PaillierStatus (ℕ × ℕ) × W) [
                | none ↦ broken w
                | some r ↦
                    let c = encrypt_openssl_internal bn mx zn key old r m w in
                    next_draw r c.0 (encrypt_loop bn mx zn fuel key old m broken) c.1
              ]).0
      drawn none w d l rest = absurd (d given)
      drawn (some r) w d l rest =
          next_draw-Outcome (suc fuel) key m r (encrypt_openssl_internal bn mx zn key old r m w).0
            (encrypt_loop bn mx zn fuel key old m broken)
            (encrypt_openssl_internal bn mx zn key old r m w).1
            ((encrypt_openssl_internal_lem key old r m good).run w)
            λ bad. Yields-weaken (λ p h. h) (λ e s. (s.0, λ pos lucky. bad (l lucky))) rest

  -- Every run of the encryption with random numbers returns a number that encrypts the plaintext, or
  -- has drawn numbers with a divisor in common with n until its rounds ran out.
  pub encrypt_openssl_lem :
      (fuel : ℕ) (key : PublicKey) (old m : ℕ)
      → IsKey key
      → Yields (Spins bn fuel key) (Encrypts key.n m) (encrypt_openssl bn mx zn fuel key old m)
  unfolding encrypt_openssl
  encrypt_openssl_lem fuel key old m good = record {
    run = λ w. gotten (bn.get w).0 (bn.get w).1 (law.get_lem w);
  }
    where
      whole :
          Yields
            (Spins bn fuel key)
            (Encrypts key.n m)
            (encrypt_loop bn mx zn fuel key old m (report zn (old, 0)) >>= λ p. pure p.0)
      whole =
          Yields-bind (Spins bn fuel key)
            (encrypt_loop_lem fuel key old m (report zn (old, 0)) good)
            λ p h. Yields-pure (Spins bn fuel key) p.0 h

      gotten :
          (r : Option (Unit {0})) (w : W)
          → Documents (¬ R) (λ _. Unit {0}) r
          → Outcome
              (Spins bn fuel key)
              (Encrypts key.n m)
              (elim r as (λ _. Result PaillierStatus ℕ × W) [
                | none ↦ report zn old w
                | some _ ↦
                    (encrypt_loop bn mx zn fuel key old m (report zn (old, 0)) >>= λ p. pure p.0) w
              ]).0
      gotten none w d = absurd (d given)
      gotten (some _) w d = whole.run w

  quotient_l_lem :
      (Q : PaillierStatus → Type 0) (old x n : ℕ)
      → Own Q
      → 1 ≤ x
      → 0 < n
      → Yields Q (λ r. r ≡ (x - 1) / n) (quotient_l zn old x n)
  unfolding quotient_l
  quotient_l_lem Q old x n own some_x some_n = settle_rule zn Q old own (
      Yields-call Q given null_read (zn.dup x) (zlaw.dup_lem x) λ x' e. rw e (
        Yields-call Q given unset (zn.sub_word x 1) (λ w. zlaw.sub_word_lem x 1 w some_x)
          λ y f.
            rw f
              (Yields-known Q given unset (zn.div (x - 1) n) λ w. zlaw.div_lem (x - 1) n w some_n)))

  -- Every number that encrypts a plaintext below n is decrypted to it.
  pub decrypt_openssl_internal_lem :
      (Q : PaillierStatus → Type 0) (key : PrivateKey) (ciphertext old m : ℕ)
      → IsPrivateKey key
      → m < key.public.n
      → Encrypts key.public.n m ciphertext
      → Yields Q (λ p. p ≡ m) (decrypt_openssl_internal bn mx zn key ciphertext old)
  unfolding decrypt_openssl_internal
  decrypt_openssl_internal_lem Q key ciphertext old m good small h =
      overwrite_rule zn given mx zlaw Q old (
        Yields-call never given unset bn.get law.get_lem λ _ _.
          coprime_passes never ciphertext key.public.n invalid_cipher_text
            (λ bad. bad (Encrypts-Coprime key.public.n good.public.big m ciphertext h))
            λ unit.
              Yields-call never given unset (mx.mod_exp ciphertext key.lamda key.public.n2)
                (λ w. mlaw.mod_exp_lem ciphertext key.lamda key.public.n2 w positive)
                λ t e.
                  Yields-bind never
                    (quotient_l_lem never t t key.public.n (λ e no. no) (some_power t e)
                      (omega (arith, good.public.big)))
                    λ l f.
                      Yields-weaken (λ p g. result t l p e f g) (λ e no. no)
                        (Yields-known never given unset (bn.mod_mul l key.mu key.public.n) λ w.
                          law.mod_mul_lem l key.mu key.public.n w (omega (arith, good.public.big))))
    where
      never : PaillierStatus → Type 0
      never _ = ⊥

      positive : 0 < key.public.n2
      positive = rw good.public.square (grind (arith, good.public.big))

      some_power : (t : ℕ) → t ≡ ciphertext ^ key.lamda % key.public.n2 → 1 ≤ t
      some_power t e =
          rw
            (
              e,
              good.public.square,
              decrypt_power key.public.n good.public.big key.lamda key.mu good.period good.inverse m
                  ciphertext h,
            )
            (omega arith)

      result :
          (t l p : ℕ)
          → t ≡ ciphertext ^ key.lamda % key.public.n2
          → l ≡ (t - 1) / key.public.n
          → p ≡ l * key.mu % key.public.n
          → p ≡ m
      result t l p e f g =
          g
          ∙ ap (λ k. k * key.mu % key.public.n) f
          ∙ ap (λ k. (k - 1) / key.public.n * key.mu % key.public.n)
              (e ∙ ap (λ k. ciphertext ^ key.lamda % k) good.public.square)
          ∙ decrypt_lem key.public.n good.public.big key.lamda key.mu good.period good.inverse m
              ciphertext small h

  -- A number with a divisor in common with n is not refused, where no error is queued: the call
  -- succeeds and leaves what its result held before.
  pub decrypt_openssl_internal_accepts :
      (Q : PaillierStatus → Type 0) (key : PrivateKey) (ciphertext old : ℕ)
      → ¬ (Coprime ciphertext key.public.n)
      → Yields Q (λ p. p ≡ old) (decrypt_openssl_internal bn mx zn key ciphertext old)
  unfolding decrypt_openssl_internal
  decrypt_openssl_internal_accepts Q key ciphertext old bad =
      overwrite_refusal zn given mx zlaw Q old refl (
        Yields-call refused given unset bn.get law.get_lem λ _ _.
          coprime_passes refused ciphertext key.public.n invalid_cipher_text (λ _. refl)
            λ unit. absurd (bad unit))
    where
      refused : PaillierStatus → Type 0
      refused e = e ≡ invalid_cipher_text
