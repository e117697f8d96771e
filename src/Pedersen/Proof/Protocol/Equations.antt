-- ===== src/Pedersen/Proof/Protocol/Equations.antt =====
-- The equations of a proof, and the byte of the generator that goes with each.
use audit_mpc_lib.Common.{
  ℕ, ◌+◌, ◌*◌, ◌%◌, ◌^◌, ◌<◌, ◌≡◌, refl, ap, subst, Bool, true, false, ◌&&◌, List, [], ◌∷◌, length,
  arith, ◌==◌, ==_iff, if◌then◌else◌, Ensures, pure_rule,
}
use audit_mpc_lib.Drng.{Drng, overlaps}
use audit_mpc_lib.Drng.Stream.{IsValid, next_byte, next_bytes-one, next_bytes-IsValid}
use audit_mpc_lib.Drng.Read.{read-next_bytes}
use audit_mpc_lib.Zkp.{ZkpStatus}
use audit_mpc_lib.Pedersen.{PedersenPublic, statistical_security}
use audit_mpc_lib.Pedersen.Proof.{ParamProof, read_e}

pub sized : {j k : ℕ} → j ≡ k → (j == k) ≡ true
sized {j} {k} e = (==_iff j k).1 e

pub reduced :
    (size : ℕ)
    → 4 * 2 + size * 2 * statistical_security < 2 ^ 32
    → 4 * 2 + statistical_security * (size * 2) ≡ (4 * 2 + size * 2 * statistical_security) % 2 ^ 32
reduced size small = omega arith

-- The equation of one pair, for one byte of the generator.
abbrev pub equation : PedersenPublic → ℕ → ℕ → ℕ → Bool
equation key e a z = key.t ^ z % key.n == (if e % 2 == 1 then a * key.s % key.n else a)

abbrev pub equations : PedersenPublic → List ℕ → ParamProof → Bool
equations key es [] = true
equations key [] (p ∷ proof) = false
equations key (e ∷ es) (p ∷ proof) = equation key e p.0 p.1 && equations key es proof

module _ {W : Type 0} (R : Type 0) (sha512 : List ℕ → List ℕ)
    (sha512_len : (m : List ℕ) → length (sha512 m) ≡ 64) (rng_address e_address : ℕ)
    (apart : overlaps rng_address e_address 1 ≡ false) where
  pub read_e_lem :
      (status : ZkpStatus) (rng : Drng)
      → IsValid rng
      → Ensures {W = W} R
          (λ r. (r ≡ next_byte sha512 rng) × IsValid (next_byte sha512 rng).1)
          (read_e sha512 rng_address e_address status rng)
  unfolding read_e
  read_e_lem status rng v =
      rw
        (
          read-next_bytes sha512 sha512_len rng_address e_address 1 rng v (omega arith) apart,
          read_e,
          next_bytes-one sha512 rng,
        )
        (pure_rule R (next_byte sha512 rng) (
          refl,
          subst IsValid (ap (λ r. r.1) (next_bytes-one sha512 rng))
              (next_bytes-IsValid sha512 sha512_len 1 rng v),
        ))
