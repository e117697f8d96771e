-- ===== src/Common/Powers.antt =====
-- Powers modulo a number.
use Prim.Native.Nat.{ℕ, zero, suc, ◌+◌, ◌*◌, ◌/◌, ◌%◌, ◌^◌}
use mathlib.Core.Path.{◌≡◌, refl, ap, sym, ◌∙◌}
use native.Mathlib.Omega.{arith}
use native.Mathlib.Nat.{pow-zero, pow-suc, div-add-mod, mul_assoc}
use audit_mpc_lib.Common.Numbers.{mul-cong}

pub pow-add : (a m n : ℕ) → a ^ (m + n) ≡ a ^ m * a ^ n
pow-add a m zero =
    omega (arith, ap (λ k. a ^ k) (plus_nil m), pow-zero a, times_one (a ^ m) (a ^ 0) (pow-zero a))
  where
    plus_nil : (m : ℕ) → m + 0 ≡ m
    plus_nil m = omega arith

    times_one : (x y : ℕ) → y ≡ 1 → x * y ≡ x
    times_one x y h = rw h (omega arith)
pow-add a m (suc n) =
    ap (λ k. a ^ k) (shift m n)
    ∙ pow-suc a (m + n)
    ∙ ap (λ t. t * a) (pow-add a m n)
    ∙ mul_assoc (a ^ m) (a ^ n) a
    ∙ ap (λ t. a ^ m * t) (sym (pow-suc a n))
  where
    shift : (m n : ℕ) → m + suc n ≡ suc (m + n)
    shift m n = omega arith

pub pow-mul : (a m n : ℕ) → a ^ (m * n) ≡ (a ^ m) ^ n
pow-mul a m zero = ap (λ k. a ^ k) (times_nil m) ∙ pow-zero a ∙ sym (pow-zero (a ^ m))
  where
    times_nil : (m : ℕ) → m * 0 ≡ 0
    times_nil m = omega arith
pow-mul a m (suc n) =
    ap (λ k. a ^ k) (next m n)
    ∙ pow-add a (m * n) m
    ∙ ap (λ t. t * a ^ m) (pow-mul a m n)
    ∙ sym (pow-suc (a ^ m) n)
  where
    next : (m n : ℕ) → m * suc n ≡ m * n + m
    next m n = grind arith

pub pow-cong : (q a b n : ℕ) → a % q ≡ b % q → a ^ n % q ≡ b ^ n % q
pow-cong q a b zero h = ap (λ t. t % q) (pow-zero a ∙ sym (pow-zero b))
pow-cong q a b (suc n) h =
    ap (λ t. t % q) (pow-suc a n)
    ∙ mul-cong q (a ^ n) (b ^ n) a b (pow-cong q a b n h) h
    ∙ ap (λ t. t % q) (sym (pow-suc b n))

pub one_pow : (n : ℕ) → 1 ^ n ≡ 1
one_pow zero = pow-zero 1
one_pow (suc n) = pow-suc 1 n ∙ ap (λ t. t * 1) (one_pow n)

-- An exponent counts modulo a period.
pub pow-period : (q t period k : ℕ) → t ^ period % q ≡ 1 % q → t ^ (k % period) % q ≡ t ^ k % q
pow-period q t period k h = sym (
    ap (λ e. t ^ e % q) (sym (div-add-mod k period))
    ∙ ap (λ e. e % q) (pow-add t (period * (k / period)) (k % period))
    ∙ mul-cong q (t ^ (period * (k / period))) 1 (t ^ (k % period)) (t ^ (k % period))
        (ap (λ e. e % q) (pow-mul t period (k / period))
          ∙ pow-cong q (t ^ period) 1 (k / period) h
          ∙ ap (λ e. e % q) (one_pow (k / period)))
        refl
    ∙ ap (λ e. e % q) (omega arith))
