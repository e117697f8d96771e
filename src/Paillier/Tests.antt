-- ===== src/Paillier/Tests.antt =====
-- The test for coprime numbers at concrete inputs, and the key n = 77 with a library that never fails
-- and always draws 1.
use native.Mathlib.Nat.{dvd_refl, dvd-mul_right}
use audit_mpc_lib.Common.{
  ℕ, ◌+◌, ◌-◌, ◌*◌, ◌%◌, ◌≡◌, refl, List, [], ◌∷◌, some, true, ok, Call, Ensures, Yields,
  from_bytes, arith, ◌>>=◌,
}
use audit_mpc_lib.Bignum.Model.{working, working-Documented, to_bytes, digits}
use audit_mpc_lib.Bignum.Modexp.Model.{working_modexp, working_modexp-ModexpDocumented}
use audit_mpc_lib.Bignum.Integers.Model.{
  working_integers, working_integers-IntegersDocumented, IsPrime-eleven, IsPrime-seven,
}
use audit_mpc_lib.Paillier.{is_coprime_fast, coprime_loop}
use audit_mpc_lib.Paillier.Coprime.{Answers, Coprime, is_coprime_fast_lem}
use audit_mpc_lib.Paillier.Fermat.{product_period}
use audit_mpc_lib.Paillier.Encryption.{Encrypts}
use audit_mpc_lib.Paillier.Cipher.{
  PrivateKey, unknown, encrypt_openssl_internal, coprime, coprime_result, encrypt_openssl,
  encrypt_loop, next_draw, settle, settle_result, overwrite, overwrite_result, report, quotient_l,
  decrypt_openssl_internal,
}
use audit_mpc_lib.Paillier.Cipher.Honest.{
  IsKey, IsPrivateKey, BadDraw, Spins, encrypt_openssl_internal_lem,
}
use audit_mpc_lib.Paillier.Messages.{
  encrypt, encrypt_integer, decrypt, decrypt_integer, output, read_ciphertext,
}
use audit_mpc_lib.Paillier.Messages.Bytes.{IsCiphertext, Stores, Prints}
use audit_mpc_lib.Paillier.Messages.Honest.{decrypt_zero, decrypt_integer_accepts}
use audit_mpc_lib.Paillier.Homomorphic.{add, sub, sub_integer, mul}
use audit_mpc_lib.Paillier.Homomorphic.Arithmetic.{sub_lem, sub_integer_lem, mul_lem}
use audit_mpc_lib.Paillier.Keys.{generate_key_pair}
use audit_mpc_lib.Paillier.Keys.Rounds.{Exhausts}
use audit_mpc_lib.Paillier.Keys.Generated.{IsPair, generate_key_pair-IsPair}
use audit_mpc_lib.Paillier.RoundTrip.{
  with_written, encrypt-decrypt, encrypt_integer-add-decrypt_integer,
}

is_coprime_fast_lem_example :
    Ensures (Unit {0}) (Answers (Coprime 35 4)) (is_coprime_fast working 35 4)
is_coprime_fast_lem_example = is_coprime_fast_lem (Unit {0}) working working-Documented 35 4

abbrev always : Call (Unit {0}) (Unit {0})
always w = (some tt, w)

abbrev tiny : PrivateKey
tiny = record { public = record { n = 77; n2 = 5929 }; p = 11; q = 7; lamda = 60; mu = 9 }

tiny-IsKey : IsKey tiny.public
tiny-IsKey = record { big = omega arith; square = refl }

tiny-IsPrivateKey : IsPrivateKey tiny
tiny-IsPrivateKey = record {
  public = tiny-IsKey;
  period =
      λ r u. product_period 11 7 r IsPrime-eleven IsPrime-seven (λ e. absurd (omega (arith, e))) u;
  inverse = refl;
}

-- 12 is encrypted with r = 1: 1 + 12 * 77 = 925, which is 3 * 256 + 157.
twelve : List ℕ
twelve = 3 ∷ 157 ∷ []

twelve-IsCiphertext : IsCiphertext working_modexp tiny.public 12 twelve
unfolding twelve from_bytes digits
twelve-IsCiphertext = record {
  encrypts = record { r = 1; unit = (1, refl); form = refl };
  below = omega arith;
  short = omega arith;
}

-- 1 is an encryption of zero.
zero-IsCiphertext : IsCiphertext working_modexp tiny.public 0 (1 ∷ [])
unfolding from_bytes digits
zero-IsCiphertext = record {
  encrypts = record { r = 1; unit = (1, refl); form = refl };
  below = omega arith;
  short = omega arith;
}

encrypt_twelve :
    (encrypt_integer working working_modexp working_integers always 1
        (some tiny.public)
        12
        true
        2).1
      tt
    ≡ (ok (some (3 ∷ 157 ∷ [])), tt)
unfolding encrypt_integer encrypt_openssl encrypt_loop next_draw settle settle_result coprime
    coprime_result encrypt_openssl_internal is_coprime_fast coprime_loop output to_bytes digits
encrypt_twelve = refl

decrypt_twelve :
    (decrypt working working_modexp working_integers (some tiny) (some (3 ∷ 157 ∷ [])) true 1).1 tt
    ≡ (ok (some (12 ∷ [])), tt)
unfolding decrypt read_ciphertext decrypt_openssl_internal overwrite overwrite_result report
    quotient_l settle settle_result coprime coprime_result is_coprime_fast coprime_loop output
    to_bytes digits from_bytes
decrypt_twelve = refl

encrypt_openssl_internal_lem_example :
    Yields
      (BadDraw tiny.public 5)
      (λ c. Encrypts 77 12 c × Coprime 5 77)
      (encrypt_openssl_internal working working_modexp working_integers tiny.public 0 5 12)
encrypt_openssl_internal_lem_example =
    encrypt_openssl_internal_lem {R = Unit {0}} tt working working-Documented working_modexp
      working_modexp-ModexpDocumented working_integers working_integers-IntegersDocumented
      tiny.public 0 5 12 tiny-IsKey

encrypt-decrypt_example : Yields (Spins working 1 tiny.public) (Prints (from_bytes 0 (12 ∷ []))) (
    (encrypt working working_modexp working_integers always 1
      (some tiny.public)
      (some (12 ∷ []))
      true
      2).1
    >>= λ o.
        with_written o
          λ s. (decrypt working working_modexp working_integers (some tiny) (some s) true 1).1)
unfolding from_bytes digits
encrypt-decrypt_example =
    encrypt-decrypt {R = Unit {0}} tt working working-Documented working_modexp
      working_modexp-ModexpDocumented working_integers working_integers-IntegersDocumented always 1
      tiny (12 ∷ []) 2 1 tiny-IsPrivateKey (omega arith) (omega arith)
      (λ e. absurd (omega (arith, e))) (omega arith) (omega arith)

encrypt_integer-add-decrypt_integer_example :
    Yields
      (Spins working 1 tiny.public)
      (λ o. o ≡ some ((70 + 12) % 77))
      ((encrypt_integer working working_modexp working_integers always 1
          (some tiny.public)
          70
          true
          2).1
        >>= λ o. with_written o λ s.
          (encrypt_integer working working_modexp working_integers always 1
            (some tiny.public)
            12
            true
            2).1
          >>= λ o'. with_written o' λ t.
            (add working working_modexp working_integers
              (some tiny.public)
              (some s)
              (some t)
              true
              2).1
            >>= λ o''.
                with_written o''
                  λ u. decrypt_integer working working_modexp working_integers (some tiny) u true)
unfolding digits
encrypt_integer-add-decrypt_integer_example =
    encrypt_integer-add-decrypt_integer {R = Unit {0}} tt working working-Documented working_modexp
      working_modexp-ModexpDocumented working_integers working_integers-IntegersDocumented always 1
      tiny 70 12 2 tiny-IsPrivateKey (omega arith) (omega arith)

decrypt_zero_example :
    Yields
      (λ e. e ≡ unknown)
      (λ _. ⊥)
      (decrypt working working_modexp working_integers (some tiny) (some (1 ∷ [])) true 1).1
unfolding digits
decrypt_zero_example =
    decrypt_zero {R = Unit {0}} tt working working-Documented working_modexp
      working_modexp-ModexpDocumented working_integers working_integers-IntegersDocumented tiny
      (1 ∷ []) 1 tiny-IsPrivateKey zero-IsCiphertext (omega arith)

decrypt_integer_accepts_example :
    Yields
      (λ _. ⊥)
      (λ o. o ≡ some 0)
      (decrypt_integer working working_modexp working_integers (some tiny) (7 ∷ []) true)
unfolding from_bytes digits
decrypt_integer_accepts_example =
    decrypt_integer_accepts {R = Unit {0}} tt working working-Documented working_modexp
      working_modexp-ModexpDocumented working_integers working_integers-IntegersDocumented tiny
      (7 ∷ []) (omega arith) (omega arith)
      λ c. absurd (omega (arith, c 7 (dvd_refl 7) (dvd-mul_right 7 11)))

sub_lem_example :
    Yields
      (λ _. ⊥)
      (Stores working_modexp tiny.public ((12 + (77 - 0 % 77)) % 77))
      (sub working working_modexp working_integers
        (some tiny.public)
        (some twelve)
        (some (1 ∷ []))
        true
        2).1
unfolding digits
sub_lem_example =
    sub_lem {R = Unit {0}} tt working working-Documented working_modexp
      working_modexp-ModexpDocumented working_integers working_integers-IntegersDocumented
      tiny.public 12 0 twelve (1 ∷ []) 2 tiny-IsKey twelve-IsCiphertext zero-IsCiphertext
      (omega arith)

sub_integer_lem_example :
    Yields
      (Spins working 1 tiny.public)
      (Stores working_modexp tiny.public ((12 + (77 - 15 % 77)) % 77))
      (sub_integer working working_modexp working_integers 1
        (some tiny.public)
        (some twelve)
        15
        true
        2).1
unfolding digits
sub_integer_lem_example =
    sub_integer_lem {R = Unit {0}} tt working working-Documented working_modexp
      working_modexp-ModexpDocumented working_integers working_integers-IntegersDocumented 1
      tiny.public 12 15 twelve 2 tiny-IsKey twelve-IsCiphertext (omega arith)

mul_lem_example :
    Yields
      (λ _. ⊥)
      (Stores working_modexp tiny.public (from_bytes 0 (10 ∷ []) * 12 % 77))
      (mul working working_modexp working_integers
        (some tiny.public)
        (some twelve)
        (some (10 ∷ []))
        true
        2).1
unfolding digits
mul_lem_example =
    mul_lem {R = Unit {0}} tt working working-Documented working_modexp
      working_modexp-ModexpDocumented working_integers working_integers-IntegersDocumented
      tiny.public 12 twelve (10 ∷ []) 2 tiny-IsKey twelve-IsCiphertext (omega arith) (omega arith)

generate_key_pair-IsPair_example :
    Yields
      (Exhausts working_modexp working_integers 1 256)
      IsPair
      (generate_key_pair working working_modexp working_integers always 1 256 true true)
generate_key_pair-IsPair_example =
    generate_key_pair-IsPair {R = Unit {0}} tt working working-Documented working_modexp
      working_modexp-ModexpDocumented working_integers working_integers-IntegersDocumented always 1
      256 (λ w. tt) (omega arith)
