-- ===== src/Paillier/CoprimeProof/Tests.antt =====
-- The proof at a key of 32 bytes, the product of 26 primes below 1024, with a library that never fails,
-- a SHA512 whose first 32 bytes are those of the number 2, or of 1, which is then the number that every
-- seed draws, and a table alpha_bin of one byte. The rounds do not run out, and the proofs are accepted.
use native.Mathlib.Nat.{dvd-mul_right, eq-one_of_dvd-one}
use audit_mpc_lib.Common.{
  zero, suc, ◌++◌, false, sym, ap, subst, inl, one_pow, Yields-weaken, ◌^◌, ◌%◌, length, ℕ, ◌≡◌,
  ◌*◌, refl, List, [], ◌∷◌, some, true, Call, Yields, arith, ◌>>=◌, try_first, from_bytes,
}
use audit_mpc_lib.Bignum.Model.{working, working-Documented, to_bytes, digits}
use audit_mpc_lib.Bignum.Modexp.Model.{working_modexp, working_modexp-ModexpDocumented}
use audit_mpc_lib.Bignum.Integers.Model.{working_integers, working_integers-IntegersDocumented}
use audit_mpc_lib.Algebra.Model.{fake_sha}
use audit_mpc_lib.Paillier.Cipher.{PaillierStatus, PrivateKey}
use audit_mpc_lib.Paillier.Cipher.Honest.{IsPrivateKey}
use audit_mpc_lib.Paillier.RoundTrip.{with_written}
use audit_mpc_lib.Paillier.CoprimeProof.{
  random_bytes, stretch, next_seed, seed_of, coprime_zkp_k, generate_coprime_zkp,
  verify_coprime_zkp,
}
use audit_mpc_lib.Paillier.Coprime.{Coprime}
use audit_mpc_lib.Paillier.CoprimeProof.Soundness.{
  HasLength, Refuses, Roots, verify_coprime_zkp-Roots,
}
use audit_mpc_lib.Paillier.CoprimeProof.Draws.{Tires, value}
use audit_mpc_lib.Paillier.CoprimeProof.Completeness.{Rounds}
use audit_mpc_lib.Paillier.Units.{Coprime_iff-Invertible}
use audit_mpc_lib.Paillier.CoprimeProof.Periods.{factors, prime_test, product_periods}
use audit_mpc_lib.Paillier.CoprimeProof.Protocol.{
  IsProvable, verify_coprime_zkp_longer, verify_coprime_zkp_lem,
  generate_coprime_zkp-verify_coprime_zkp,
}

abbrev primes : List ℕ
primes =
    709 ∷ 719 ∷ 727 ∷ 733 ∷ 739 ∷ 743 ∷ 751 ∷ 757 ∷ 761 ∷ 769 ∷ 773 ∷ 787 ∷ 797 ∷ 809 ∷ 811 ∷ 821
    ∷ 823 ∷ 827 ∷ 829 ∷ 839 ∷ 853 ∷ 857 ∷ 859 ∷ 863 ∷ 877 ∷ []

abbrev modulus : ℕ
modulus = 2044051892303754389187730260691330831257290243272589446447092527753907850477

abbrev lamda : ℕ
lamda = 244151344392981899793351977229132213878112000

primes_lem : factors lamda 701 primes ≡ true
unfolding factors prime_test try_first
primes_lem = refl

abbrev whole : PrivateKey
whole = record {
  public = record { n = modulus; n2 = modulus * modulus };
  p = 701;
  q = 2915908548222188857614451156478360672264322743612823746714825289235246577;
  lamda = lamda;
  mu = 274300204198108995785811988019953061873775631897671879148630169144164300855;
}

whole-IsPrivateKey : IsPrivateKey whole
whole-IsPrivateKey = record {
  public = record { big = omega arith; square = refl };
  period = λ r u. product_periods lamda 701 primes r primes_lem u;
  inverse = refl;
}

whole-IsProvable : IsProvable working_modexp whole
unfolding digits
whole-IsProvable = record {
  good = whole-IsPrivateKey;
  odd = refl;
  some_lamda = omega arith;
  blocks = refl;
  short = omega arith;
  divisor = 701;
  divides = dvd-mul_right 701 whole.q;
  proper = (omega arith, omega arith);
}

abbrev always : Call (Unit {0}) (Unit {0})
always w = (some tt, w)

-- The 32 bytes of a number, and 32 more, which are the next seed.
abbrev fake_sha512 : ℕ → List ℕ → List ℕ
fake_sha512 k s = to_bytes 32 k ++ to_bytes 32 7

-- Every seed draws the number 2,
draws_two : (s : List ℕ) → value (fake_sha512 2) 32 s ≡ 2
unfolding random_bytes stretch to_bytes from_bytes
draws_two s = refl

-- which is coprime with the odd modulus, so that one round is enough for each draw.
two-Coprime : Coprime 2 modulus
two-Coprime =
    (Coprime_iff-Invertible modulus 2).1
      (1022025946151877194593865130345665415628645121636294723223546263876953925239, refl)

never-Tires : (e : PaillierStatus) → ¬ (Tires (fake_sha512 2) modulus 32 1 e)
never-Tires e (_, tired) =
    tired (omega arith) λ s. subst (λ x. Coprime x modulus) (sym (draws_two s)) two-Coprime

unit_alpha : Coprime 1 modulus
unit_alpha d x y = eq-one_of_dvd-one x

generate_coprime_zkp-verify_coprime_zkp_example :
    Yields
      (Tires (fake_sha512 2) modulus 32 1)
      (λ _. Unit {0})
      ((generate_coprime_zkp working working_modexp working_integers fake_sha
          (fake_sha512 2)
          always
          true
          1
          (some whole)
          (some (7 ∷ []))
          true
          true
          512).1
        >>= λ o. with_written o λ ys.
          verify_coprime_zkp working working_modexp working_integers fake_sha
            (fake_sha512 2)
            always
            true
            1
            (1 ∷ [])
            (some whole.public)
            (some (7 ∷ []))
            true
            (some ys)
            true)
unfolding digits from_bytes
generate_coprime_zkp-verify_coprime_zkp_example =
    generate_coprime_zkp-verify_coprime_zkp {R = Unit {0}} tt working working-Documented
      working_modexp working_modexp-ModexpDocumented working_integers
      working_integers-IntegersDocumented fake_sha (fake_sha512 2) always (λ w. tt) whole
      whole-IsProvable 1 (some (7 ∷ [])) true refl true (1 ∷ []) 512 unit_alpha (omega arith)

-- Every run generates a proof and accepts it.
generated_accepted :
    Yields
      (λ _. ⊥)
      (λ _. Unit {0})
      ((generate_coprime_zkp working working_modexp working_integers fake_sha
          (fake_sha512 2)
          always
          true
          1
          (some whole)
          (some (7 ∷ []))
          true
          true
          512).1
        >>= λ o. with_written o λ ys.
          verify_coprime_zkp working working_modexp working_integers fake_sha
            (fake_sha512 2)
            always
            true
            1
            (1 ∷ [])
            (some whole.public)
            (some (7 ∷ []))
            true
            (some ys)
            true)
unfolding digits from_bytes
generated_accepted =
    Yields-weaken (λ _ _. tt) never-Tires
      (generate_coprime_zkp-verify_coprime_zkp {R = Unit {0}} tt working working-Documented
        working_modexp working_modexp-ModexpDocumented working_integers
        working_integers-IntegersDocumented fake_sha (fake_sha512 2) always (λ w. tt) whole
        whole-IsProvable 1 (some (7 ∷ [])) true refl true (1 ∷ []) 512 unit_alpha (omega arith))

verify_coprime_zkp_longer_example :
    Yields
      (Tires (fake_sha512 2) modulus 32 1)
      (λ _. Unit {0})
      ((generate_coprime_zkp working working_modexp working_integers fake_sha
          (fake_sha512 2)
          always
          false
          1
          (some whole)
          (some (7 ∷ []))
          true
          true
          512).1
        >>= λ o. with_written o λ ys.
          verify_coprime_zkp working working_modexp working_integers fake_sha
            (fake_sha512 2)
            always
            false
            1
            (1 ∷ [])
            (some whole.public)
            (some (7 ∷ []))
            true
            (some (ys ++ (9 ∷ [])))
            true)
unfolding digits from_bytes
verify_coprime_zkp_longer_example =
    verify_coprime_zkp_longer {R = Unit {0}} tt working working-Documented working_modexp
      working_modexp-ModexpDocumented working_integers working_integers-IntegersDocumented fake_sha
      (fake_sha512 2) always (λ w. tt) whole whole-IsProvable 1 (some (7 ∷ [])) true refl false
      (1 ∷ []) 512 (9 ∷ []) unit_alpha (omega arith)

-- For the draws of 1 the proof is 16 times the number 1.
abbrev ones : ℕ → List ℕ
ones zero = []
ones (suc k) = to_bytes 32 1 ++ ones k

ones-Rounds :
    (k : ℕ) (s : List ℕ)
    → Rounds (fake_sha512 1) modulus 32 1 211387614727215839952569373213445900488221413 k s (ones k)
unfolding random_bytes stretch next_seed to_bytes from_bytes
ones-Rounds zero s = refl
ones-Rounds (suc k) s = (
  1,
  next_seed (fake_sha512 1) 32 s,
  to_bytes 32 1,
  ones k,
  inl (unit_alpha, refl, refl),
  unit_alpha,
  refl,
  sym (ap (λ t. t % modulus) (one_pow 211387614727215839952569373213445900488221413)),
  refl,
  ones-Rounds k (next_seed (fake_sha512 1) 32 s),
)

ones_accepted :
    Yields
      (λ _. ⊥)
      (λ _. Unit {0})
      (verify_coprime_zkp working working_modexp working_integers fake_sha
        (fake_sha512 1)
        always
        true
        1
        (1 ∷ [])
        (some whole.public)
        (some (7 ∷ []))
        true
        (some (ones 16))
        true)
unfolding digits from_bytes to_bytes
ones_accepted =
    verify_coprime_zkp_lem {R = Unit {0}} tt working working-Documented working_modexp
      working_modexp-ModexpDocumented working_integers working_integers-IntegersDocumented fake_sha
      (fake_sha512 1) always (λ w. tt) whole whole-IsProvable 1 (some (7 ∷ [])) true refl true
      (1 ∷ []) (ones 16) [] unit_alpha
      (211387614727215839952569373213445900488221413, refl, ones-Rounds 16 _) refl

verify_coprime_zkp-Roots_example :
    Yields Refuses
      (λ _.
        HasLength true
          (working_modexp.num_bytes modulus * coprime_zkp_k % 2 ^ 32)
          (length (ones 16))
        × Coprime (from_bytes 0 (1 ∷ [])) modulus
        × Roots
            (fake_sha512 1)
            modulus
            (working_modexp.num_bytes modulus)
            1
            coprime_zkp_k
            (seed_of working working_modexp working_integers fake_sha
              (fake_sha512 1)
              always
              (working.bn2bin modulus)
              (some (7 ∷ [])))
            (ones 16))
      (verify_coprime_zkp working working_modexp working_integers fake_sha
        (fake_sha512 1)
        always
        true
        1
        (1 ∷ [])
        (some whole.public)
        (some (7 ∷ []))
        true
        (some (ones 16))
        true)
verify_coprime_zkp-Roots_example =
    verify_coprime_zkp-Roots {R = Unit {0}} tt working working-Documented working_modexp
      working_modexp-ModexpDocumented working_integers working_integers-IntegersDocumented fake_sha
      (fake_sha512 1) always (λ w. tt) true 1 (1 ∷ []) whole.public (some (7 ∷ [])) true (ones 16)
      true refl
