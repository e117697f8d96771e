-- ===== src/Paillier/CoprimeProof/Completeness.antt =====
-- The rounds of a proof, when it is generated and when it is verified.
use native.Mathlib.Nat.{mod-lt, mod-mod, mul_comm, pow-suc, pow-zero}
use audit_mpc_lib.Common.{
  append_assoc, ◌==◌, false, ◌∷◌, ℕ, zero, suc, ◌*◌, ◌%◌, ◌^◌, ◌<◌, ◌≤◌, ◌≡◌, refl, sym, ap, ◌∙◌,
  subst, inr, ==_iff, some, List, [], ◌++◌, length, length-append, take, drop, take-append,
  drop-append, Call, Documents, Yields, Yields-pure, Yields-bind, Yields-call, Yields-passes,
  from_bytes, arith, pow-mul, pow-cong, pow-period,
}
use audit_mpc_lib.Common.Sha.{Sha256}
use audit_mpc_lib.Bignum.{Bignum, Documented}
use audit_mpc_lib.Bignum.Modexp.{Modexp, ModexpDocumented}
use audit_mpc_lib.Bignum.Integers.{Integers, IntegersDocumented}
use audit_mpc_lib.Paillier.Coprime.{Coprime}
use audit_mpc_lib.Paillier.Units.{Invertible, Coprime_iff-Invertible}
use audit_mpc_lib.Paillier.Cipher.{unset, invalid_proof}
use audit_mpc_lib.Paillier.CoprimeProof.Draws.{Draws, Tires, draw_unit-Draws, Draws-draw_unit}
use audit_mpc_lib.Paillier.CoprimeProof.{prove_rounds, verify_rounds}

module _ (sha512 : List ℕ → List ℕ) (n n_len : ℕ) where
  -- What the rounds write: for each number its power, in as many bytes as n has.
  abbrev pub Rounds : ℕ → ℕ → ℕ → List ℕ → List ℕ → Type 0
  Rounds fuel m zero s ys = ys ≡ []
  Rounds fuel m (suc k) s ys =
      (x : ℕ) × (s' : List ℕ) × (y : List ℕ) × (rest : List ℕ) × Draws sha512 n n_len fuel s x s'
      × Coprime x n
      × (length y ≡ n_len)
      × (from_bytes 0 y ≡ x ^ m % n)
      × (ys ≡ y ++ rest)
      × Rounds fuel m k s' rest

  pub Rounds-length : (fuel m k : ℕ) (s ys : List ℕ) → Rounds fuel m k s ys → length ys ≡ n_len * k
  Rounds-length fuel m zero s ys e = omega (arith, ap length e)
  Rounds-length fuel m (suc k) s ys (x, s', y, rest, d, c, len, num, e, more) =
      omega (arith, ap length e, length-append y rest, len, Rounds-length fuel m k s' rest more)

first_power : (x : ℕ) → x ^ 1 ≡ x
first_power x = omega (arith, pow-suc x 0, ap (λ t. t * x) (pow-zero x))

-- A number that is not zero has a byte.
pub bn2bin_some :
    {W R : Type 0} (bn : Bignum W) (mx : Modexp W) (n : ℕ)
    → ModexpDocumented R mx bn.bn2bin
    → 0 < n
    → (length (bn.bn2bin n) == 0) ≡ false
bn2bin_some bn mx n mlaw pos = nonempty (bn.bn2bin n) λ e.
    absurd (omega (arith, mlaw.num_bytes_lem n, ap (λ k. 256 ^ k) (sym (mlaw.bn2bin_len n) ∙ e)))
  where
    nonempty : (s : List ℕ) → (length s ≡ 0 → ⊥) → (length s == 0) ≡ false
    nonempty [] f = absurd (f refl)
    nonempty (x ∷ s) f = ground arith

module _ {W R : Type 0} (given : R) (bn : Bignum W) (law : Documented R bn) (mx : Modexp W)
    (mlaw : ModexpDocumented R mx bn.bn2bin) (zn : Integers W) (zlaw : IntegersDocumented R zn mx)
    (sha : Sha256) (sha512 : List ℕ → List ℕ) (malloc : Call W (Unit {0}))
    (malloc_lem : (w : W) → Documents (¬ R) (λ _. Unit {0}) (malloc w).0) where
  module _ (n n_len : ℕ) where
    module _ (odd : n % 2 ≡ 1) (fits : n ≤ 256 ^ n_len) (positive : 0 < n) where
      pub prove_rounds_lem :
          (fuel m k : ℕ) (s : List ℕ) (x : ℕ)
          → Yields
              (Tires sha512 n n_len fuel)
              (Rounds sha512 n n_len fuel m k s)
              (prove_rounds bn mx zn sha sha512 malloc fuel k n n_len m (some n) s x)
      unfolding prove_rounds
      prove_rounds_lem fuel m zero s x = Yields-pure (Tires sha512 n n_len fuel) [] refl
      prove_rounds_lem fuel m (suc k) s x =
          Yields-bind (Tires sha512 n n_len fuel)
            (draw_unit-Draws given bn law mx mlaw zn zlaw sha sha512 malloc malloc_lem n n_len fuel
              s x)
            λ r d.
              Yields-call (Tires sha512 n n_len fuel) given unset (mx.mod_exp_mont r.0 m n (some n))
                (λ w. mlaw.mod_exp_mont_lem r.0 m n (some n) w odd (inr refl))
                λ tmp e.
                  Yields-call (Tires sha512 n n_len fuel) given unset (bn.bn2binpad tmp n_len)
                    (λ w. law.bn2binpad_lem tmp n_len w (small r.0 tmp e))
                    λ y h.
                      Yields-bind (Tires sha512 n n_len fuel) (prove_rounds_lem fuel m k r.1 r.0)
                        λ ys rest.
                          Yields-pure (Tires sha512 n n_len fuel) (y ++ ys)
                            (r.0, r.1, y, ys, d.0, d.1, h.0, h.1 ∙ e, refl, rest)
        where
          small : (x tmp : ℕ) → tmp ≡ x ^ m % n → tmp < 256 ^ n_len
          small x tmp e = omega (arith, e, fits, mod-lt (x ^ m) {m = n} positive)

      -- The power n undoes the power m.
      module _ (lamda m : ℕ) (some_lamda : 0 < lamda)
          (period : (r : ℕ) → Invertible n r → r ^ lamda % n ≡ 1 % n)
          (inverse : n * m % lamda ≡ 1 % lamda) where
        undone : (x : ℕ) → Coprime x n → (x ^ m % n) ^ n % n ≡ x % n
        undone x c =
            let one = period x ((Coprime_iff-Invertible n x).0 c) in
            pow-cong n (x ^ m % n) (x ^ m) n (mod-mod (x ^ m) n)
            ∙ ap (λ t. t % n) (sym (pow-mul x m n))
            ∙ ap (λ k. x ^ k % n) (mul_comm m n)
            ∙ sym (pow-period n x lamda (n * m) one)
            ∙ ap (λ k. x ^ k % n) inverse
            ∙ pow-period n x lamda 1 one
            ∙ ap (λ t. t % n) (first_power x)

        -- What stands behind the rounds is not read.
        pub Rounds-verify_rounds :
            (fuel k : ℕ) (s : List ℕ) (x : ℕ) (ys zs tail : List ℕ)
            → Rounds sha512 n n_len fuel m k s ys
            → zs ≡ ys ++ tail
            → Yields
                (λ _. ⊥)
                (λ _. Unit {0})
                (verify_rounds bn mx zn sha sha512 malloc fuel k n n_len (some n) s x zs)
        unfolding verify_rounds
        Rounds-verify_rounds fuel zero s x ys zs tail h ez = Yields-pure (λ _. ⊥) tt tt
        Rounds-verify_rounds fuel (suc k) s x ys zs tail (x', s', y, rest, d, c, len, num, e, more)
              e_zs =
            let parts : zs ≡ y ++ (rest ++ tail) =
              e_zs ∙ ap (λ t. t ++ tail) e ∙ append_assoc y rest tail in
            Yields-bind (λ _. ⊥)
              (Draws-draw_unit given bn law mx mlaw zn zlaw sha sha512 malloc malloc_lem n n_len
                fuel s x x' s' d)
              λ r (ex, es).
                Yields-call (λ _. ⊥) given unset (bn.modulo r.0 n)
                  (λ w. law.modulo_lem r.0 n w positive)
                  λ z ez.
                    Yields-call (λ _. ⊥) given unset (bn.bin2bn (take n_len zs))
                      (law.bin2bn_lem (take n_len zs))
                      λ b eb.
                        Yields-call (λ _. ⊥) given unset (mx.mod_exp_mont b n n (some n))
                          (λ w. mlaw.mod_exp_mont_lem b n n (some n) w odd (inr refl))
                          λ t et.
                            let read : b ≡ x' ^ m % n =
                              eb
                              ∙ ap (from_bytes 0)
                                  (ap (take n_len) parts ∙ take-append n_len y (rest ++ tail) len)
                              ∙ num in
                            let same : t ≡ z =
                              et
                              ∙ ap (λ b. b ^ n % n) read
                              ∙ undone x' c
                              ∙ sym (ez ∙ ap (λ x. x % n) ex) in
                            Yields-passes (λ _. ⊥) invalid_proof (rw ((==_iff t z).1 same))
                              (subst
                                (λ s'.
                                  Yields (λ _. ⊥) (λ _. Unit {0})
                                    (verify_rounds bn mx zn sha sha512 malloc fuel k n n_len
                                      (some n) s' z (drop n_len zs)))
                                (sym es)
                                (Rounds-verify_rounds fuel k s' z rest (drop n_len zs) tail more
                                  (ap (drop n_len) parts ∙ drop-append n_len y (rest ++ tail) len)))
