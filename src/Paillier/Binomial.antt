-- ===== src/Paillier/Binomial.antt =====
-- Powers modulo the square of n: those of 1 + a n, and n-th powers.
use native.Mathlib.Nat.{div-add-mod, add-mul-mod_self_left, pow-suc, pow-zero}
use audit_mpc_lib.Common.{
  ℕ, zero, suc, ◌+◌, ◌*◌, ◌/◌, ◌%◌, ◌^◌, ◌<◌, ◌≡◌, refl, sym, ap, ◌∙◌, arith, mul-cong,
}

pub mul-pow : (a b k : ℕ) → (a * b) ^ k ≡ a ^ k * b ^ k
mul-pow a b zero =
    pow-zero (a * b) ∙ omega (arith, pow-zero a, pow-zero b, ap (λ t. t * b ^ 0) (pow-zero a))
mul-pow a b (suc k) = omega (
  arith,
  pow-suc (a * b) k,
  pow-suc a k,
  pow-suc b k,
  ap (λ t. t * (a * b)) (mul-pow a b k),
  ap (λ t. t * b ^ suc k) (pow-suc a k),
  ap (λ t. a ^ k * a * t) (pow-suc b k),
)

pub one_plus-mul : (n a b : ℕ) → (1 + a * n) * (1 + b * n) % (n * n) ≡ (1 + (a + b) * n) % (n * n)
one_plus-mul n a b =
    ap (λ t. t % (n * n)) (omega arith) ∙ add-mul-mod_self_left (1 + (a + b) * n) (n * n) (a * b)

pub one_plus-pow : (n a k : ℕ) → (1 + a * n) ^ k % (n * n) ≡ (1 + k * a * n) % (n * n)
one_plus-pow n a zero = ap (λ t. t % (n * n)) (pow-zero (1 + a * n) ∙ omega arith)
one_plus-pow n a (suc k) =
    ap (λ t. t % (n * n)) (pow-suc (1 + a * n) k)
    ∙ mul-cong (n * n) ((1 + a * n) ^ k) (1 + k * a * n) (1 + a * n) (1 + a * n)
        (one_plus-pow n a k) refl
    ∙ one_plus-mul n (k * a) a
    ∙ ap (λ t. t % (n * n)) (omega arith)

-- The coefficient counts modulo n.
pub one_plus-mod : (n a : ℕ) → (1 + a % n * n) % (n * n) ≡ (1 + a * n) % (n * n)
one_plus-mod n a =
    sym (add-mul-mod_self_left (1 + a % n * n) (n * n) (a / n))
    ∙ ap (λ t. t % (n * n)) (omega (arith, ap (λ t. t * n) (div-add-mod a n)))

-- The n-th power of a number that is one modulo n is one modulo the square of n.
pub lift_one : (n x : ℕ) → 1 < n → x % n ≡ 1 → x ^ n % (n * n) ≡ 1 % (n * n)
lift_one n x big h =
    ap (λ t. t ^ n % (n * n)) (omega (arith, div-add-mod x n))
    ∙ one_plus-pow n (x / n) n
    ∙ ap (λ t. t % (n * n)) (omega arith)
    ∙ add-mul-mod_self_left 1 (n * n) (x / n)
