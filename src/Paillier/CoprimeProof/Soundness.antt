-- ===== src/Paillier/CoprimeProof/Soundness.antt =====
-- What it means that a proof is accepted.
use audit_mpc_lib.Common.{
  ◌&&◌, ◌⊎◌, Bool-cases, inl, false, refl, ltb, ℕ, zero, suc, ◌*◌, ◌%◌, ◌^◌, ◌<◌, ◌≡◌, sym, ap, ◌∙◌,
  subst, Bool, true, not, ◌==◌, inr, Option, none, some, List, length, take, drop, Result, err,
  Call, fail_if, Documents, Outcome, Yields, Yields-pure, Yields-fail, Yields-bind, Yields-guard,
  Yields-passes, Yields-call, Yields-weaken, from_bytes, arith,
}
use audit_mpc_lib.Common.Sha.{Sha256}
use audit_mpc_lib.Bignum.{Bignum, Documented}
use audit_mpc_lib.Bignum.Modexp.{Modexp, ModexpDocumented}
use audit_mpc_lib.Bignum.Integers.{Integers, IntegersDocumented}
use audit_mpc_lib.Paillier.Coprime.{Coprime, Answers}
use audit_mpc_lib.Paillier.Cipher.{
  PaillierStatus, unset, out_of_memory, invalid_key, invalid_param, invalid_proof, aborted, openssl,
  PublicKey,
}
use audit_mpc_lib.Paillier.Cipher.Rules.{settle_rule}
use audit_mpc_lib.Paillier.Cipher.Honest.{coprime_lem}
use audit_mpc_lib.Paillier.CoprimeProof.{
  asserting, coprime_zkp_k, seed_of, verify_rounds, refuse_prime, check_alpha, verify_coprime_zkp,
  missing,
}
use audit_mpc_lib.Paillier.CoprimeProof.Completeness.{bn2bin_some}
use audit_mpc_lib.Paillier.CoprimeProof.Draws.{Draws, draw_unit-Draws}

-- A refusal of the model's or of the code's own, no code of OpenSSL's.
abbrev pub Refuses : PaillierStatus → Type 0
Refuses e = (c : ℕ) → ¬ (e ≡ openssl c)

-- Each number drawn is coprime with n, and is the power n of its part of the proof.
abbrev pub Roots : (List ℕ → List ℕ) → ℕ → ℕ → ℕ → ℕ → List ℕ → List ℕ → Type 0
Roots sha512 n n_len fuel zero s ys = Unit {0}
Roots sha512 n n_len fuel (suc k) s ys =
    (x : ℕ) × (s' : List ℕ) × Draws sha512 n n_len fuel s x s'
    × Coprime x n
    × (from_bytes 0 (take n_len ys) ^ n % n ≡ x % n)
    × Roots sha512 n n_len fuel k s' (drop n_len ys)

-- The length of a proof that passes: the whole length, or more in a build without asserts.
abbrev pub HasLength : Bool → ℕ → ℕ → Type 0
HasLength asserts whole len = (len ≡ whole) ⊎ ((asserts ≡ false) × (whole < len))

long_enough :
    (asserts : Bool) (len whole : ℕ)
    → (asserts && not (len == whole)) ≡ false
    → ltb len whole ≡ false
    → HasLength asserts whole len
long_enough true len whole same fits = inl (ground (arith, same))
long_enough false len whole same fits = elim (Bool-cases (len == whole)) [
  | inl e ↦ inl (ground (arith, e))
  | inr e ↦ inr (refl, ground (arith, e, fits))
]

asserting-Refuses : (asserts : Bool) → Refuses (asserting asserts invalid_key)
asserting-Refuses true c p = cc p
asserting-Refuses false c p = cc p

equal : (t z : ℕ) → not (t == z) ≡ false → t ≡ z
equal t z h = ground (arith, h)

module _ {W R : Type 0} (given : R) (bn : Bignum W) (law : Documented R bn) (mx : Modexp W)
    (mlaw : ModexpDocumented R mx bn.bn2bin) (zn : Integers W) (zlaw : IntegersDocumented R zn mx)
    (sha : Sha256) (sha512 : List ℕ → List ℕ) (malloc : Call W (Unit {0}))
    (malloc_lem : (w : W) → Documents (¬ R) (λ _. Unit {0}) (malloc w).0) where
  module _ (n n_len : ℕ) (odd : n % 2 ≡ 1) (positive : 0 < n) where
    verify_rounds-Roots :
        (fuel k : ℕ) (s : List ℕ) (x : ℕ) (ys : List ℕ)
        → Yields Refuses
            (λ _. Roots sha512 n n_len fuel k s ys)
            (verify_rounds bn mx zn sha sha512 malloc fuel k n n_len (some n) s x ys)
    unfolding verify_rounds
    verify_rounds-Roots fuel zero s x ys = Yields-pure Refuses tt tt
    verify_rounds-Roots fuel (suc k) s x ys =
        Yields-bind Refuses
          (Yields-weaken (λ r h. h) (λ e h c p. cc (h.0, p))
            (draw_unit-Draws given bn law mx mlaw zn zlaw sha sha512 malloc malloc_lem n n_len fuel
              s x))
          λ r d.
            Yields-call Refuses given unset (bn.modulo r.0 n) (λ w. law.modulo_lem r.0 n w positive)
              λ z ez.
                Yields-call Refuses given unset (bn.bin2bn (take n_len ys))
                  (law.bin2bn_lem (take n_len ys))
                  λ b eb.
                    Yields-call Refuses given unset (mx.mod_exp_mont b n n (some n))
                      (λ w. mlaw.mod_exp_mont_lem b n n (some n) w odd (inr refl))
                      λ t et.
                        Yields-guard Refuses (not (t == z)) invalid_proof (λ c p. cc p)
                          λ same.
                            Yields-weaken
                              (λ _ more. (r.0, r.1, d.0, d.1, root b z t eb et same r.0 ez, more))
                              (λ e h. h) (verify_rounds-Roots fuel k r.1 z (drop n_len ys))
      where
        root :
            (b z t : ℕ)
            → b ≡ from_bytes 0 (take n_len ys)
            → t ≡ b ^ n % n
            → not (t == z) ≡ false
            → (x : ℕ) → z ≡ x % n
            → from_bytes 0 (take n_len ys) ^ n % n ≡ x % n
        root b z t eb et same x ez = ap (λ b. b ^ n % n) (sym eb) ∙ sym et ∙ equal t z same ∙ ez

  check_alpha_lem :
      (alpha_bin : List ℕ) (n : ℕ)
      → Yields Refuses
          (λ _. Coprime (from_bytes 0 alpha_bin) n)
          (check_alpha bn mx zn sha sha512 malloc alpha_bin n)
  unfolding check_alpha
  check_alpha_lem alpha_bin n =
      Yields-call Refuses given unset (bn.bin2bn alpha_bin) (law.bin2bn_lem alpha_bin) λ t e.
        Yields-bind Refuses (coprime_lem given bn law mx mlaw zn zlaw Refuses t n) (answered t e)
    where
      answered :
          (t : ℕ)
          → t ≡ from_bytes 0 alpha_bin
          → (b : Bool) → Answers (Coprime t n) b
          → Yields {W = W} Refuses
              (λ _. Coprime (from_bytes 0 alpha_bin) n)
              (fail_if (not b) invalid_key)
      answered t e true a = Yields-pure Refuses tt (subst (λ k. Coprime k n) e (a.0 refl))
      answered t e false a = Yields-fail Refuses invalid_key λ c p. cc p

  refuse_prime_lem :
      (n : ℕ) → Yields Refuses (λ _. Unit {0}) (refuse_prime bn mx zn sha sha512 malloc n)
  unfolding refuse_prime
  refuse_prime_lem n = record { run = λ w. told (mx.is_prime n w).0 (mx.is_prime n w).1 }
    where
      told :
          (o : Option Bool) (w : W)
          → Outcome Refuses
              (λ _. Unit {0})
              (elim o as (λ _. Result PaillierStatus (Unit {0}) × W) [
                | none ↦ (err invalid_key, w)
                | some prime ↦ fail_if prime invalid_key w
              ]).0
      told none w = λ c p. cc p
      told (some true) w = λ c p. cc p
      told (some false) w = tt

  -- For an odd n, where memory does not run out: a proof is accepted only where it is as long as 16
  -- numbers of the size of n, or longer in a build without asserts, the number of the table is coprime with n, and each of the 16 numbers
  -- drawn from the seed, coprime with n too, is modulo n the power n of its part of the proof.
  pub verify_coprime_zkp-Roots :
      (asserts : Bool) (fuel : ℕ) (alpha_bin : List ℕ) (key : PublicKey) (aad : Option (List ℕ))
      (aad_len_set : Bool) (y : List ℕ) (y_len_set : Bool)
      → key.n % 2 ≡ 1
      → Yields Refuses
          (λ _.
            HasLength asserts (mx.num_bytes key.n * coprime_zkp_k % 2 ^ 32) (length y)
            × Coprime (from_bytes 0 alpha_bin) key.n
            × Roots sha512 key.n
                (mx.num_bytes key.n)
                fuel
                coprime_zkp_k
                (seed_of bn mx zn sha sha512 malloc (bn.bn2bin key.n) aad)
                y)
          (verify_coprime_zkp bn mx zn sha sha512 malloc asserts fuel alpha_bin
            (some key)
            aad
            aad_len_set
            (some y)
            y_len_set)
  unfolding verify_coprime_zkp
  verify_coprime_zkp-Roots asserts fuel alpha_bin key aad aad_len_set y y_len_set odd =
      Yields-guard Refuses (missing aad aad_len_set) invalid_param (λ c p. cc p)
        λ _.
          Yields-guard Refuses (not (mx.num_bytes key.n % 32 == 0)) (asserting asserts invalid_key)
            (asserting-Refuses asserts)
            λ _.
              Yields-guard Refuses
                (asserts && not (length y == mx.num_bytes key.n * coprime_zkp_k % 2 ^ 32)) aborted
                (λ c p. cc p)
                λ same.
                  Yields-guard Refuses
                    (ltb (length y) (mx.num_bytes key.n * coprime_zkp_k % 2 ^ 32)) invalid_param
                    (λ c p. cc p)
                    λ fits.
                      settle_rule zn Refuses tt (λ c q. q c refl)
                        (Yields-call Refuses given unset bn.ctx_new law.ctx_new_lem λ _ _.
                          Yields-bind Refuses (refuse_prime_lem key.n) λ _ _.
                            Yields-call Refuses given unset bn.get law.get_lem λ _ _.
                              Yields-call Refuses given unset bn.get law.get_lem λ _ _.
                                Yields-call Refuses given unset bn.get law.get_lem λ _ _.
                                  Yields-call Refuses given unset mx.mont_new zlaw.mont_new_lem
                                    λ _ _.
                                      Yields-bind Refuses (check_alpha_lem alpha_bin key.n)
                                        λ _ unit.
                                          Yields-call Refuses given out_of_memory malloc malloc_lem
                                            λ _ _.
                                              Yields-passes Refuses unset
                                                (bn2bin_some bn mx key.n mlaw positive)
                                                (Yields-call Refuses given unset (mx.mont_set key.n)
                                                  (λ w. zlaw.mont_set_odd key.n w odd)
                                                  λ mont e. rw e (
                                                    Yields-weaken
                                                      (λ _ roots. (
                                                        long_enough asserts (length y)
                                                            (mx.num_bytes key.n
                                                            * coprime_zkp_k
                                                            % 2 ^ 32)
                                                            same fits,
                                                        unit,
                                                        roots,
                                                      ))
                                                      (λ e h. h)
                                                      (verify_rounds-Roots key.n
                                                        (mx.num_bytes key.n) odd positive fuel
                                                        coprime_zkp_k
                                                        (seed_of bn mx zn sha sha512 malloc
                                                          (bn.bn2bin key.n) aad)
                                                        0 y))))
    where
      positive : 0 < key.n
      positive = omega (arith, odd)
