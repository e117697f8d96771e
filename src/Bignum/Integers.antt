-- ===== src/Bignum/Integers.antt =====
-- OpenSSL's BIGNUM, continued: machine words, quotients, squares, primes in a residue class, and the
-- queue of errors.
pub mod Model
use Prim.Native.Nat.{◌∣◌}
use audit_mpc_lib.Common.{
  ℕ, ◌+◌, ◌-◌, ◌*◌, ◌/◌, ◌%◌, ◌^◌, ◌≤◌, ◌<◌, ◌≡◌, ◌⊎◌, false, List, Call, Documents, IsByte, All,
  length,
}
use audit_mpc_lib.Bignum.Modexp.{Modexp}

pub record Integers (W : Type 0) : Type 0 where
  -- BN_CTX_secure_new
  pub ctx_secure_new : Call W (Unit {0})
  pub dup : ℕ → Call W ℕ
  pub add_word : ℕ → ℕ → Call W ℕ
  -- called where the result is not negative
  pub sub_word : ℕ → ℕ → Call W ℕ
  -- BN_div, of which only the quotient is asked for
  pub div : ℕ → ℕ → Call W ℕ
  pub sqr : ℕ → Call W ℕ
  -- BN_get_word of a number of at most 64 bits
  pub get_word : ℕ → ℕ
  -- BN_generate_prime_ex with a number of bits, a modulus and a remainder
  pub prime_in_class : ℕ → ℕ → ℕ → Call W ℕ
  -- ERR_get_error: 0 where no error is queued
  pub get_error : W → ℕ × W

-- A number with exactly two divisors.
pub record IsPrime (p : ℕ) : Type 0 where
  pub big : 1 < p
  pub only : (d : ℕ) → d ∣ p → (d ≡ 1) ⊎ (d ≡ p)

-- `R` says that memory and randomness do not run out, and that no error is queued where the queue is
-- read.
pub record IntegersDocumented {W : Type 0} (R : Type 0) (zn : Integers W) (mx : Modexp W)
    : Type 0 where
  pub ctx_secure_new_lem : (w : W) → Documents (¬ R) (λ _. Unit {0}) (zn.ctx_secure_new w).0
  pub dup_lem : (n : ℕ) (w : W) → Documents (¬ R) (λ r. r ≡ n) (zn.dup n w).0
  pub add_word_lem : (a b : ℕ) (w : W) → Documents (¬ R) (λ r. r ≡ a + b) (zn.add_word a b w).0
  pub sub_word_lem :
      (a b : ℕ) (w : W) → b ≤ a → Documents (¬ R) (λ r. r ≡ a - b) (zn.sub_word a b w).0
  pub div_lem : (a b : ℕ) (w : W) → 0 < b → Documents (¬ R) (λ r. r ≡ a / b) (zn.div a b w).0
  pub sqr_lem : (a : ℕ) (w : W) → Documents (¬ R) (λ r. r ≡ a * a) (zn.sqr a w).0
  pub get_word_lem : (a : ℕ) → a < 2 ^ 64 → zn.get_word a ≡ a
  -- The two classes that the code asks for.
  pub prime_three_lem :
      (bits : ℕ) (w : W)
      → Documents (¬ R) (λ p. IsPrime p × (p % 8 ≡ 3)) (zn.prime_in_class bits 8 3 w).0
  pub prime_seven_lem :
      (bits : ℕ) (w : W)
      → Documents (¬ R) (λ p. IsPrime p × (p % 8 ≡ 7)) (zn.prime_in_class bits 8 7 w).0
  pub get_error_lem : (w : W) → R → (zn.get_error w).0 ≡ 0
  -- What BN_gcd returns divides both numbers.
  pub gcd_dvd_lem : (a b : ℕ) (w : W) → Documents (¬ R) (λ g. (g ∣ a) × (g ∣ b)) (mx.gcd a b w).0
  pub mont_new_lem : (w : W) → Documents (¬ R) (λ _. Unit {0}) (mx.mont_new w).0
  -- BN_MONT_CTX_set succeeds for an odd modulus.
  pub mont_set_odd : (m : ℕ) (w : W) → m % 2 ≡ 1 → Documents (¬ R) (λ r. r ≡ m) (mx.mont_set m w).0
  -- BN_is_prime_ex tells a number with a proper divisor from a prime.
  pub is_prime_lem :
      (n d : ℕ) (w : W)
      → d ∣ n
      → 1 < d
      → d < n
      → Documents (¬ R) (λ b. b ≡ false) (mx.is_prime n w).0
  -- The number of bytes is the least that is enough.
  pub num_bytes_le : (n len : ℕ) → n < 256 ^ len → mx.num_bytes n ≤ len
