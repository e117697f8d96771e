-- ===== src/Bignum/Modexp.antt =====
-- OpenSSL's BIGNUM, continued: sizes, plain sums and products, exponentiation and its Montgomery
-- context, which is the modulus that it was set for.
pub mod Model
use Prim.Native.Nat.{◌∣◌}
use audit_mpc_lib.Common.{
  ℕ, ◌+◌, ◌-◌, ◌*◌, ◌%◌, ◌^◌, ◌≤◌, ◌<◌, ◌≡◌, ◌⊎◌, Bool, true, Option, none, some, List, Call,
  Documents, IsByte, All, length, from_bytes,
}

pub record Modexp (W : Type 0) : Type 0 where
  -- BN_num_bytes and BN_num_bits
  pub num_bytes : ℕ → ℕ
  pub num_bits : ℕ → ℕ
  -- BN_MONT_CTX_new and BN_MONT_CTX_set
  pub mont_new : Call W (Unit {0})
  pub mont_set : ℕ → Call W ℕ
  pub mod_exp : ℕ → ℕ → ℕ → Call W ℕ
  pub mod_exp_mont : ℕ → ℕ → ℕ → Option ℕ → Call W ℕ
  pub mod_exp2_mont : ℕ → ℕ → ℕ → ℕ → ℕ → Option ℕ → Call W ℕ
  pub mod_sqr : ℕ → ℕ → Call W ℕ
  -- BN_add, BN_sub and BN_mul, without a modulus; BN_sub is called where the result is not negative
  pub add : ℕ → ℕ → Call W ℕ
  pub sub : ℕ → ℕ → Call W ℕ
  pub mul : ℕ → ℕ → Call W ℕ
  pub gcd : ℕ → ℕ → Call W ℕ
  -- BN_generate_prime_ex, of safe primes
  pub generate_prime : ℕ → Call W ℕ
  -- BN_is_prime_ex, `none` for -1
  pub is_prime : ℕ → Call W Bool
  -- RAND_bytes of a 64-bit number
  pub rand64 : Call W ℕ

-- A context that fits the modulus, or none: the call makes its own.
abbrev pub Fits : Option ℕ → ℕ → Type 0
Fits mont m = (mont ≡ none) ⊎ (mont ≡ some m)

-- `R` says that memory and randomness do not run out. The Montgomery functions want an odd modulus.
pub record ModexpDocumented {W : Type 0} (R : Type 0) (bn : Modexp W) (bn2bin : ℕ → List ℕ)
    : Type 0 where
  pub bn2bin_len : (n : ℕ) → length (bn2bin n) ≡ bn.num_bytes n
  pub bn2bin_lem : (n : ℕ) → from_bytes 0 (bn2bin n) ≡ n
  pub num_bytes_lem : (n : ℕ) → n < 256 ^ bn.num_bytes n
  pub mont_set_lem : (m : ℕ) (w : W) → Documents (Unit {0}) (λ r. r ≡ m) (bn.mont_set m w).0
  pub mod_exp_lem :
      (a p m : ℕ) (w : W) → 0 < m → Documents (¬ R) (λ r. r ≡ a ^ p % m) (bn.mod_exp a p m w).0
  pub mod_exp_mont_lem :
      (a p m : ℕ) (mont : Option ℕ) (w : W)
      → m % 2 ≡ 1
      → Fits mont m
      → Documents (¬ R) (λ r. r ≡ a ^ p % m) (bn.mod_exp_mont a p m mont w).0
  pub mod_exp2_mont_lem :
      (a p b q m : ℕ) (mont : Option ℕ) (w : W)
      → m % 2 ≡ 1
      → Fits mont m
      → Documents (¬ R) (λ r. r ≡ a ^ p * b ^ q % m) (bn.mod_exp2_mont a p b q m mont w).0
  pub mod_sqr_lem :
      (a m : ℕ) (w : W) → 0 < m → Documents (¬ R) (λ r. r ≡ a * a % m) (bn.mod_sqr a m w).0
  pub add_lem : (a b : ℕ) (w : W) → Documents (¬ R) (λ r. r ≡ a + b) (bn.add a b w).0
  pub sub_lem : (a b : ℕ) (w : W) → b ≤ a → Documents (¬ R) (λ r. r ≡ a - b) (bn.sub a b w).0
  pub mul_lem : (a b : ℕ) (w : W) → Documents (¬ R) (λ r. r ≡ a * b) (bn.mul a b w).0
  pub gcd_lem :
      (a b : ℕ) (w : W) → Documents (¬ R) (λ g. (d : ℕ) → d ∣ a → d ∣ b → d ∣ g) (bn.gcd a b w).0
  pub generate_prime_lem :
      (bits : ℕ) (w : W) → 2 ≤ bits → Documents (¬ R) (λ p. 2 ≤ p) (bn.generate_prime bits w).0
  pub rand64_lem : (w : W) → Documents (¬ R) (λ r. r < 2 ^ 64) (bn.rand64 w).0
