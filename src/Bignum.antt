-- ===== src/Bignum.antt =====
-- OpenSSL's BIGNUM, a library that the repository only calls: its functions as parameters, and the
-- documented behaviour that the code relies on. A BIGNUM is the natural number that it holds.
pub mod Model
pub mod Modexp
pub mod Integers
use audit_mpc_lib.Common.{
  ℕ, ◌+◌, ◌-◌, ◌*◌, ◌%◌, ◌^◌, ◌≤◌, ◌<◌, ◌≡◌, ◌≢◌, ◌⊎◌, List, Call, Documents, IsByte, All, length,
  from_bytes,
}

pub record Bignum (W : Type 0) : Type 0 where
  -- BN_CTX_new, and BN_CTX_get or BN_new
  pub ctx_new : Call W (Unit {0})
  pub get : Call W (Unit {0})
  pub bin2bn : List ℕ → Call W ℕ
  -- BN_bin2bn with a negative length: nothing is read, and nothing else is assumed
  pub bin2bn_negative : Call W ℕ
  pub bn2binpad : ℕ → ℕ → Call W (List ℕ)
  pub mod_add : ℕ → ℕ → ℕ → Call W ℕ
  pub mod_sub : ℕ → ℕ → ℕ → Call W ℕ
  pub mod_mul : ℕ → ℕ → ℕ → Call W ℕ
  pub mod_inverse : ℕ → ℕ → Call W ℕ
  pub rand_range : ℕ → Call W ℕ
  -- BN_copy and BN_set_word
  pub copy : ℕ → Call W ℕ
  pub set_word : ℕ → Call W ℕ
  pub mul_word : ℕ → ℕ → Call W ℕ
  -- BN_mod
  pub modulo : ℕ → ℕ → Call W ℕ
  pub mod_add_quick : ℕ → ℕ → ℕ → Call W ℕ
  pub mod_sub_quick : ℕ → ℕ → ℕ → Call W ℕ
  -- BN_bn2bin: the digits without leading zeros
  pub bn2bin : ℕ → List ℕ

-- `R` says that memory and randomness do not run out.
pub record Documented {W : Type 0} (R : Type 0) (bn : Bignum W) : Type 0 where
  pub ctx_new_lem : (w : W) → Documents (¬ R) (λ _. Unit {0}) (bn.ctx_new w).0
  pub get_lem : (w : W) → Documents (¬ R) (λ _. Unit {0}) (bn.get w).0
  pub bin2bn_lem :
      (s : List ℕ) (w : W) → Documents (¬ R) (λ r. r ≡ from_bytes 0 s) (bn.bin2bn s w).0
  -- fails on a number that does not fit
  pub bn2binpad_lem :
      (n len : ℕ) (w : W)
      → n < 256 ^ len
      → Documents (¬ R) (λ s. (length s ≡ len) × (from_bytes 0 s ≡ n)) (bn.bn2binpad n len w).0
  pub mod_add_lem :
      (a b m : ℕ) (w : W) → 0 < m → Documents (¬ R) (λ r. r ≡ (a + b) % m) (bn.mod_add a b m w).0
  pub mod_sub_lem :
      (a b m : ℕ) (w : W)
      → 0 < m
      → Documents (¬ R) (λ r. r ≡ (a % m + (m - b % m)) % m) (bn.mod_sub a b m w).0
  pub mod_mul_lem :
      (a b m : ℕ) (w : W) → 0 < m → Documents (¬ R) (λ r. r ≡ a * b % m) (bn.mod_mul a b m w).0
  -- fails also where there is no inverse
  pub mod_inverse_lem :
      (a m : ℕ) (w : W)
      → 0 < m
      → Documents
          (¬ R ⊎ ((x : ℕ) → a * x % m ≢ 1 % m))
          (λ r. (r < m) × (a * r % m ≡ 1 % m))
          (bn.mod_inverse a m w).0
  pub rand_range_lem : (m : ℕ) (w : W) → 0 < m → Documents (¬ R) (λ r. r < m) (bn.rand_range m w).0
  pub set_word_lem : (n : ℕ) (w : W) → Documents (¬ R) (λ r. r ≡ n) (bn.set_word n w).0
  pub copy_lem : (n : ℕ) (w : W) → Documents (¬ R) (λ r. r ≡ n) (bn.copy n w).0
  pub mul_word_lem : (a n : ℕ) (w : W) → Documents (¬ R) (λ r. r ≡ a * n) (bn.mul_word a n w).0
  pub modulo_lem : (a m : ℕ) (w : W) → 0 < m → Documents (¬ R) (λ r. r ≡ a % m) (bn.modulo a m w).0
  -- both operands are reduced
  pub mod_add_quick_lem :
      (a b m : ℕ) (w : W)
      → a < m
      → b < m
      → Documents (¬ R) (λ r. r ≡ (a + b) % m) (bn.mod_add_quick a b m w).0
