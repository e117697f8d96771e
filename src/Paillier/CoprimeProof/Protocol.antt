-- ===== src/Paillier/CoprimeProof/Protocol.antt =====
-- The proof from its generation to its verification.
use Prim.Native.Nat.{◌∣◌}
use native.Mathlib.Nat.{mod-eq_of_lt}
use audit_mpc_lib.Common.{
  assert_passes, ◌&&◌, ◌++◌, [], append-nil, length-append, fail_if, ◌>>=◌, ℕ, ◌*◌, ◌%◌, ◌^◌, ◌<◌,
  ◌≤◌, ◌≡◌, refl, sym, ◌∙◌, subst, Bool, true, false, not, ge→ltb, ◌==◌, ==_iff, Option, none, some,
  List, length, Result, err, Call, ◌>>=◌, Documents, Outcome, Yields, Yields-pure, Yields-bind,
  Yields-call, Yields-passes, Yields-weaken, from_bytes, arith,
}
use audit_mpc_lib.Common.Sha.{Sha256}
use audit_mpc_lib.Bignum.{Bignum, Documented}
use audit_mpc_lib.Bignum.Modexp.{Modexp, ModexpDocumented}
use audit_mpc_lib.Bignum.Integers.{Integers, IntegersDocumented}
use audit_mpc_lib.Paillier.Coprime.{Coprime}
use audit_mpc_lib.Paillier.Units.{Invertible, Coprime_iff-Invertible, Invertible-found}
use audit_mpc_lib.Paillier.Cipher.{
  PaillierStatus, unset, out_of_memory, invalid_key, invalid_param, aborted, buffer_too_short,
  PrivateKey,
}
use audit_mpc_lib.Paillier.Cipher.Rules.{settle_rule}
use audit_mpc_lib.Paillier.Cipher.Honest.{IsPrivateKey, coprime_lem}
use audit_mpc_lib.Paillier.RoundTrip.{with_written}
use audit_mpc_lib.Paillier.CoprimeProof.{
  asserting, coprime_zkp_k, seed_of, prove_rounds, generate_coprime_zkp, refuse_prime, check_alpha,
  verify_coprime_zkp, missing,
}
use audit_mpc_lib.Paillier.CoprimeProof.Draws.{Tires}
use audit_mpc_lib.Paillier.CoprimeProof.Completeness.{
  bn2bin_some, Rounds, prove_rounds_lem, Rounds-length, Rounds-verify_rounds,
}

-- A key that the proof is made for: n is odd, has whole blocks of 32 bytes and a proper divisor.
pub record IsProvable {W : Type 0} (mx : Modexp W) (key : PrivateKey) : Type 0 where
  pub good : IsPrivateKey key
  pub odd : key.public.n % 2 ≡ 1
  pub some_lamda : 0 < key.lamda
  pub blocks : mx.num_bytes key.public.n % 32 ≡ 0
  pub short : mx.num_bytes key.public.n * coprime_zkp_k < 2 ^ 32
  pub divisor : ℕ
  pub divides : divisor ∣ key.public.n
  pub proper : (1 < divisor) × (divisor < key.public.n)

module _ {W R : Type 0} (given : R) (bn : Bignum W) (law : Documented R bn) (mx : Modexp W)
    (mlaw : ModexpDocumented R mx bn.bn2bin) (zn : Integers W) (zlaw : IntegersDocumented R zn mx)
    (sha : Sha256) (sha512 : List ℕ → List ℕ) (malloc : Call W (Unit {0}))
    (malloc_lem : (w : W) → Documents (¬ R) (λ _. Unit {0}) (malloc w).0) where
  -- The hypotheses of the rounds, for a key.
  module _ (key : PrivateKey) (h : IsProvable mx key) where
    positive : 0 < key.public.n
    positive = omega (arith, h.good.public.big)

    fits : key.public.n ≤ 256 ^ mx.num_bytes key.public.n
    fits = omega (arith, mlaw.num_bytes_lem key.public.n)

    period : (r : ℕ) → Invertible key.public.n r → r ^ key.lamda % key.public.n ≡ 1 % key.public.n
    period r u = h.good.period r u ∙ sym (mod-eq_of_lt h.good.public.big)

    -- The inverse of n modulo lamda that the prover computes.
    n-Invertible : Invertible key.lamda key.public.n
    n-Invertible =
        let c =
          (Coprime_iff-Invertible key.public.n key.lamda).1
            (key.mu, h.good.inverse ∙ sym (mod-eq_of_lt h.good.public.big)) in
        (Coprime_iff-Invertible key.lamda key.public.n).0 λ d x y. c d y x

    some_bytes : (length (bn.bn2bin key.public.n) == 0) ≡ false
    some_bytes = bn2bin_some bn mx key.public.n mlaw positive

    blocks_pass : not (mx.num_bytes key.public.n % 32 == 0) ≡ false
    blocks_pass = rw h.blocks refl

    whole_len :
        mx.num_bytes key.public.n * coprime_zkp_k % 2 ^ 32
        ≡ mx.num_bytes key.public.n * coprime_zkp_k
    whole_len = mod-eq_of_lt h.short

    -- The rounds that a generated proof consists of.
    abbrev IsProof : ℕ → Option (List ℕ) → List ℕ → Type 0
    IsProof fuel aad ys =
        (m : ℕ) × (key.public.n * m % key.lamda ≡ 1 % key.lamda)
        × Rounds sha512 key.public.n (mx.num_bytes key.public.n) fuel m coprime_zkp_k
            (seed_of bn mx zn sha sha512 malloc (bn.bn2bin key.public.n) aad) ys

    module _ (fuel : ℕ) (aad : Option (List ℕ)) (aad_len_set : Bool)
        (present : missing aad aad_len_set ≡ false) where
      abbrev Q : PaillierStatus → Type 0
      Q = Tires sha512 key.public.n (mx.num_bytes key.public.n) fuel

      generate_coprime_zkp-IsProof :
          (asserts : Bool) (y_len : ℕ)
          → mx.num_bytes key.public.n * coprime_zkp_k ≤ y_len
          → Yields Q
              (λ o. (ys : List ℕ) × (o ≡ some ys) × IsProof fuel aad ys)
              (generate_coprime_zkp bn mx zn sha sha512 malloc asserts fuel
                (some key)
                aad
                aad_len_set
                true
                y_len).1
      unfolding generate_coprime_zkp
      generate_coprime_zkp-IsProof asserts y_len room =
          rw (present, h.blocks, whole_len)
            (Yields-passes Q buffer_too_short
              (ge→ltb y_len (mx.num_bytes key.public.n * coprime_zkp_k) room)
              (settle_rule zn Q none (λ e q. cc q.0)
                (Yields-call Q given unset bn.ctx_new law.ctx_new_lem λ _ _.
                  Yields-call Q given unset bn.get law.get_lem λ _ _.
                    Yields-call Q given unset bn.get law.get_lem λ _ _.
                      Yields-call Q given unset bn.get law.get_lem λ _ _.
                        Yields-call Q given unset mx.mont_new zlaw.mont_new_lem λ _ _.
                          Yields-call Q given unset (bn.mod_inverse key.public.n key.lamda)
                            (λ w.
                              Invertible-found R
                                (λ m.
                                  (m < key.lamda) × (key.public.n * m % key.lamda ≡ 1 % key.lamda))
                                key.lamda key.public.n (bn.mod_inverse key.public.n key.lamda w).0
                                n-Invertible
                                (law.mod_inverse_lem key.public.n key.lamda w h.some_lamda))
                            λ m em. Yields-call Q given out_of_memory malloc malloc_lem λ _ _.
                              Yields-passes Q unset some_bytes (
                                Yields-call Q given unset (mx.mont_set key.public.n)
                                  (λ w. zlaw.mont_set_odd key.public.n w h.odd)
                                  λ mont emont. Yields-bind Q (prove m mont emont) λ ys rounds.
                                    Yields-pure Q (some ys) (ys, refl, (m, em.1, rounds))))))
        where
          prove :
              (m mont : ℕ)
              → mont ≡ key.public.n
              → Yields Q
                  (Rounds sha512 key.public.n
                    (mx.num_bytes key.public.n)
                    fuel
                    m
                    coprime_zkp_k
                    (seed_of bn mx zn sha sha512 malloc (bn.bn2bin key.public.n) aad))
                  (prove_rounds bn mx zn sha sha512 malloc fuel coprime_zkp_k key.public.n
                    (mx.num_bytes key.public.n)
                    m
                    (some mont)
                    (seed_of bn mx zn sha sha512 malloc (bn.bn2bin key.public.n) aad)
                    0)
          prove m mont e = rw e (
              prove_rounds_lem given bn law mx mlaw zn zlaw sha sha512 malloc malloc_lem
                key.public.n (mx.num_bytes key.public.n) h.odd fits positive fuel m coprime_zkp_k
                (seed_of bn mx zn sha sha512 malloc (bn.bn2bin key.public.n) aad) 0)

      IsProof-length :
          (ys : List ℕ)
          → IsProof fuel aad ys
          → length ys ≡ mx.num_bytes key.public.n * coprime_zkp_k % 2 ^ 32
      IsProof-length ys (m, inv, rounds) =
          Rounds-length sha512 key.public.n (mx.num_bytes key.public.n) fuel m coprime_zkp_k
            (seed_of bn mx zn sha sha512 malloc (bn.bn2bin key.public.n) aad) ys rounds
          ∙ sym whole_len

      pub verify_coprime_zkp_lem :
          (asserts : Bool) (alpha_bin ys tail : List ℕ)
          → Coprime (from_bytes 0 alpha_bin) key.public.n
          → IsProof fuel aad ys
          → (asserts
              && not (length (ys ++ tail) == mx.num_bytes key.public.n * coprime_zkp_k % 2 ^ 32))
            ≡ false
          → Yields
              (λ _. ⊥)
              (λ _. Unit {0})
              (verify_coprime_zkp bn mx zn sha sha512 malloc asserts fuel alpha_bin
                (some key.public)
                aad
                aad_len_set
                (some (ys ++ tail))
                true)
      unfolding verify_coprime_zkp refuse_prime check_alpha
      verify_coprime_zkp_lem asserts alpha_bin ys tail unit (m, inv, rounds) whole =
          Yields-passes never invalid_param present (
            Yields-passes never (asserting asserts invalid_key) blocks_pass (
              Yields-passes never aborted whole (
                Yields-passes never invalid_param
                  (ge→ltb (length (ys ++ tail)) (mx.num_bytes key.public.n * coprime_zkp_k % 2 ^ 32)
                    (omega (arith, length-append ys tail, len)))
                  (settle_rule zn never tt (λ e no. no)
                    (Yields-call never given unset bn.ctx_new law.ctx_new_lem λ _ _.
                      Yields-bind never composite λ _ _.
                        Yields-call never given unset bn.get law.get_lem λ _ _.
                          Yields-call never given unset bn.get law.get_lem λ _ _.
                            Yields-call never given unset bn.get law.get_lem λ _ _.
                              Yields-call never given unset mx.mont_new zlaw.mont_new_lem λ _ _.
                                Yields-bind never alpha_unit λ _ _.
                                  Yields-call never given out_of_memory malloc malloc_lem λ _ _.
                                    Yields-passes never unset some_bytes (
                                      Yields-call never given unset (mx.mont_set key.public.n)
                                        (λ w. zlaw.mont_set_odd key.public.n w h.odd)
                                        λ mont e. rw e (
                                          Rounds-verify_rounds given bn law mx mlaw zn zlaw sha
                                            sha512 malloc malloc_lem key.public.n
                                            (mx.num_bytes key.public.n) h.odd fits positive
                                            key.lamda m h.some_lamda period inv fuel coprime_zkp_k
                                            (seed_of bn mx zn sha sha512 malloc
                                              (bn.bn2bin key.public.n) aad)
                                            0 ys (ys ++ tail) tail rounds refl)))))))
        where
          never : PaillierStatus → Type 0
          never _ = ⊥

          len : length ys ≡ mx.num_bytes key.public.n * coprime_zkp_k % 2 ^ 32
          len = IsProof-length ys (m, inv, rounds)

          alpha_unit :
              Yields never
                (λ _. Unit {0})
                (check_alpha bn mx zn sha sha512 malloc alpha_bin key.public.n)
          alpha_unit =
              Yields-call never given unset (bn.bin2bn alpha_bin) (law.bin2bn_lem alpha_bin) λ t e.
                Yields-bind never (coprime_lem given bn law mx mlaw zn zlaw never t key.public.n)
                  λ b a.
                    rw (a.1 (subst (λ k. Coprime k key.public.n) (sym e) unit))
                      (Yields-pure never tt tt)

          composite :
              Yields never (λ _. Unit {0}) (refuse_prime bn mx zn sha sha512 malloc key.public.n)
          composite = record {
            run = λ w.
                told (mx.is_prime key.public.n w).0 (mx.is_prime key.public.n w).1
                  (zlaw.is_prime_lem key.public.n h.divisor w h.divides h.proper.0 h.proper.1);
          }
            where
              told :
                  (o : Option Bool) (w : W)
                  → Documents (¬ R) (λ b. b ≡ false) o
                  → Outcome never
                      (λ _. Unit {0})
                      (elim o as (λ _. Result PaillierStatus (Unit {0}) × W) [
                        | none ↦ (err invalid_key, w)
                        | some prime ↦ fail_if prime invalid_key w
                      ]).0
              told none w d = absurd (d given)
              told (some b) w d = rw d tt

      -- In every build, where memory does not run out, for a key to which `IsProvable` applies, an aad that
      -- is there if its length is not zero, a table whose number is coprime with n, and room for the
      -- proof: the proof that is generated is accepted for the public part of the key, or the rounds that
      -- draw a number coprime with n have run out while it is generated, of which one is enough where
      -- every number drawn is coprime with n.
      pub generate_coprime_zkp-verify_coprime_zkp :
          (asserts : Bool) (alpha_bin : List ℕ) (y_len : ℕ)
          → Coprime (from_bytes 0 alpha_bin) key.public.n
          → mx.num_bytes key.public.n * coprime_zkp_k ≤ y_len
          → Yields
              (Tires sha512 key.public.n (mx.num_bytes key.public.n) fuel)
              (λ _. Unit {0})
              ((generate_coprime_zkp bn mx zn sha sha512 malloc asserts fuel
                  (some key)
                  aad
                  aad_len_set
                  true
                  y_len).1
                >>= λ o. with_written o λ ys.
                  verify_coprime_zkp bn mx zn sha sha512 malloc asserts fuel alpha_bin
                    (some key.public)
                    aad
                    aad_len_set
                    (some ys)
                    true)
      generate_coprime_zkp-verify_coprime_zkp asserts alpha_bin y_len unit room =
          Yields-bind Q (generate_coprime_zkp-IsProof asserts y_len room) λ o (ys, e, proof). rw e (
            Yields-weaken (λ _ _. tt) (λ e no. absurd no)
              (subst
                (λ zs.
                  Yields (λ _. ⊥) (λ _. Unit {0})
                    (verify_coprime_zkp bn mx zn sha sha512 malloc asserts fuel alpha_bin
                      (some key.public) aad aad_len_set (some zs) true))
                (append-nil ys)
                (verify_coprime_zkp_lem asserts alpha_bin ys [] unit proof (
                  assert_passes asserts _ (
                    rw
                      (
                        append-nil ys,
                        (==_iff (length ys) (mx.num_bytes key.public.n * coprime_zkp_k % 2 ^ 32)).1
                            (IsProof-length ys proof),
                      )
                      refl)))))

      -- In a build without asserts, where memory does not run out, for a key to which `IsProvable` applies,
      -- an aad that is there if its length is not zero, a table whose number is coprime with n, and room
      -- for the proof: the proof that is generated is accepted with any bytes behind it, or the rounds
      -- that draw a number coprime with n have run out while it is generated, of which one is enough where
      -- every number drawn is coprime with n.
      pub verify_coprime_zkp_longer :
          (asserts : Bool) (alpha_bin : List ℕ) (y_len : ℕ) (tail : List ℕ)
          → Coprime (from_bytes 0 alpha_bin) key.public.n
          → mx.num_bytes key.public.n * coprime_zkp_k ≤ y_len
          → Yields
              (Tires sha512 key.public.n (mx.num_bytes key.public.n) fuel)
              (λ _. Unit {0})
              ((generate_coprime_zkp bn mx zn sha sha512 malloc asserts fuel
                  (some key)
                  aad
                  aad_len_set
                  true
                  y_len).1
                >>= λ o. with_written o λ ys.
                  verify_coprime_zkp bn mx zn sha sha512 malloc false fuel alpha_bin
                    (some key.public)
                    aad
                    aad_len_set
                    (some (ys ++ tail))
                    true)
      verify_coprime_zkp_longer asserts alpha_bin y_len tail unit room =
          Yields-bind Q (generate_coprime_zkp-IsProof asserts y_len room) λ o (ys, e, proof). rw e (
            Yields-weaken (λ _ _. tt) (λ e no. absurd no)
              (verify_coprime_zkp_lem false alpha_bin ys tail unit proof refl))
