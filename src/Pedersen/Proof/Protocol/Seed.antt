-- ===== src/Pedersen/Proof/Protocol/Seed.antt =====
-- The seed of the challenges, which both sides compute from the same numbers.
use audit_mpc_lib.Common.{
  ℕ, ◌^◌, ◌≤◌, ◌<◌, ◌≡◌, refl, List, [], ◌∷◌, length, All, arith, Call, Documents, Ensures,
  pure_rule, bind_rule, call_rule, from_bytes,
}
use audit_mpc_lib.Common.Sha.{Sha256}
use audit_mpc_lib.Bignum.{Bignum}
use audit_mpc_lib.Bignum.Modexp.{Modexp}
use audit_mpc_lib.Pedersen.{PedersenPublic}
use audit_mpc_lib.Pedersen.Proof.{ParamProof, hash_commitments, generate_zkp_seed}

-- BN_bn2binpad writes the digits of the number, the same each time.
pub record Padding {W : Type 0} (R : Type 0) (bn : Bignum W) (padded : ℕ → ℕ → List ℕ)
    : Type 0 where
  pub padded_lem :
      (n len : ℕ) (w : W)
      → n < 256 ^ len
      → Documents (¬ R) (λ s. s ≡ padded n len) (bn.bn2binpad n len w).0
  pub padded_len : (n len : ℕ) → length (padded n len) ≡ len
  pub padded_number : (n len : ℕ) → n < 256 ^ len → from_bytes 0 (padded n len) ≡ n

module _ (sha : Sha256) (padded : ℕ → ℕ → List ℕ) where
  abbrev pub hashed : ℕ → ParamProof → sha.Ctx → sha.Ctx
  hashed size [] ctx = ctx
  hashed size ((a, z) ∷ proof) ctx = hashed size proof (sha.update ctx (padded a size))

  abbrev pub seed_of : ℕ → PedersenPublic → ParamProof → List ℕ → List ℕ
  seed_of size key proof aad = sha.final (
      hashed size proof (
        sha.update
          (sha.update (sha.update (sha.update sha.init aad) (padded key.n size))
            (padded key.s size))
          (padded key.t size)))

-- Every number of the proof fits into the modulus' length.
abbrev pub Fitting : ℕ → ParamProof → Type 0
Fitting size proof = All (λ p. (p.0 < 256 ^ size) × (p.1 < 256 ^ size)) proof

module _ {W : Type 0} (R : Type 0) (bn : Bignum W) (padded : ℕ → ℕ → List ℕ)
    (pad : Padding R bn padded) (sha : Sha256) where
  hash_commitments_lem :
      (size : ℕ) (proof : ParamProof) (ctx : sha.Ctx)
      → Fitting size proof
      → Ensures R
          (λ c. c ≡ hashed sha padded size proof ctx)
          (hash_commitments bn sha size proof ctx)
  unfolding hash_commitments
  hash_commitments_lem size [] ctx fits = pure_rule R ctx refl
  hash_commitments_lem size ((a, z) ∷ proof) ctx (now, later) =
      call_rule R tt (bn.bn2binpad a size) (λ w. pad.padded_lem a size w now.0)
        λ digits e. rw e (hash_commitments_lem size proof (sha.update ctx (padded a size)) later)

  pub generate_zkp_seed_lem :
      (mx : Modexp W) (malloc : Call W (Unit {0}))
      → ((w : W) → Documents (¬ R) (λ _. Unit {0}) (malloc w).0)
      → (key : PedersenPublic) (proof : ParamProof) (aad : List ℕ)
      → key.n < 256 ^ mx.num_bytes key.n
      → key.s ≤ key.n
      → key.t ≤ key.n
      → Fitting (mx.num_bytes key.n) proof
      → Ensures R
          (λ seed. seed ≡ seed_of sha padded (mx.num_bytes key.n) key proof aad)
          (generate_zkp_seed bn mx sha malloc key proof aad)
  unfolding generate_zkp_seed
  generate_zkp_seed_lem mx malloc malloc_lem key proof aad hn hs ht fits =
      let size = mx.num_bytes key.n in
      call_rule R tt malloc malloc_lem λ _ _.
        call_rule R tt (bn.bn2binpad key.n size) (λ w. pad.padded_lem key.n size w hn)
          λ n en.
            call_rule R tt (bn.bn2binpad key.s size)
              (λ w. pad.padded_lem key.s size w (omega arith))
              λ s es.
                call_rule R tt (bn.bn2binpad key.t size)
                  (λ w. pad.padded_lem key.t size w (omega arith))
                  λ t et.
                    rw (en, es, et)
                      (bind_rule R (hash_commitments_lem size proof _ fits)
                        λ ctx ec. rw ec (pure_rule R _ refl))
