-- ===== src/Paillier/Fermat.antt =====
-- Fermat's little theorem, by the binomial theorem, and what follows for a product of two primes:
-- the exponent lamda of the Paillier keys is a period.
use native.Mathlib.Nat.{
  pow-suc, pow-zero, add-mul-mod_self_left, mod-mod_of_dvd, dvd-mul_right, le_of_dvd, div-add-mod,
  mod-eq_of_lt, mul_comm,
}
use audit_mpc_lib.Common.{
  ℕ, zero, suc, ◌+◌, ◌-◌, ◌*◌, ◌/◌, ◌%◌, ◌^◌, ◌<◌, ◌≤◌, ◌≡◌, ◌≢◌, refl, sym, ap, ◌∙◌, inl, inr, ◌⊎◌,
  subst, arith, mul-cong, add-cong, pow-cong, pow-mul, one_pow,
}
use audit_mpc_lib.Bignum.Integers.{IsPrime}
use audit_mpc_lib.Paillier.Coprime.{Coprime}
use audit_mpc_lib.Paillier.Units.{Invertible, Bezout, Coprime-Bezout, Coprime_iff-Invertible}

choose : ℕ → ℕ → ℕ
choose n zero = 1
choose zero (suc k) = 0
choose (suc n) (suc k) = choose n k + choose n (suc k)

choose_above : (n k : ℕ) → n < k → choose n k ≡ 0
unfolding choose
choose_above n zero h = absurd (omega arith)
choose_above zero (suc k) h = refl
choose_above (suc n) (suc k) h =
    omega (arith, choose_above n k (omega arith), choose_above n (suc k) (omega arith))

choose_self : (n : ℕ) → choose n n ≡ 1
unfolding choose
choose_self zero = refl
choose_self (suc n) = omega (arith, choose_self n, choose_above n (suc n) (omega arith))

choose_absorb : (n k : ℕ) → suc k * choose (suc n) (suc k) ≡ suc n * choose n k
unfolding choose
choose_absorb zero zero = refl
choose_absorb zero (suc k) = omega arith
choose_absorb (suc n) zero = omega (arith, choose_absorb n zero)
choose_absorb (suc n) (suc k) = omega (arith, choose_absorb n k, choose_absorb n (suc k))

-- The first terms of the binomial sum, up to the power `j`.
terms : ℕ → ℕ → ℕ → ℕ
terms n zero a = 1
terms n (suc j) a = terms n j a + choose n (suc j) * a ^ suc j

terms-suc : (n j a : ℕ) → terms (suc n) (suc j) a ≡ terms n (suc j) a + a * terms n j a
unfolding terms choose
terms-suc n zero a = omega (
  arith,
  pow-suc a 0,
  pow-zero a,
  ap (λ t. t * a) (pow-zero a),
  ap (λ t. choose n 1 * t) (pow-suc a 0),
)
terms-suc n (suc j) a =
    omega (arith, terms-suc n j a, ap (λ t. choose n (suc j) * t) (pow-suc a (suc j)))

binomial : (n a : ℕ) → (1 + a) ^ n ≡ terms n n a
unfolding terms
binomial zero a = pow-zero (1 + a)
binomial (suc n) a = omega (
  arith,
  pow-suc (1 + a) n,
  ap (λ t. t * (1 + a)) (binomial n a),
  terms-suc n n a,
  ap (λ t. t * a ^ suc n) (choose_above n (suc n) (omega arith)),
)

Prime-Coprime : (p k : ℕ) → IsPrime p → 0 < k → k < p → Coprime k p
Prime-Coprime p k prime pos small d x y = elim (prime.only d y) [
  | inl e ↦ e
  | inr e ↦ absurd (omega (arith, le_of_dvd {m = p} {n = k} pos (rw e at x)))
]

-- The inner binomial coefficients of a prime are divisible by it.
choose-mod : (n k : ℕ) → IsPrime (suc n) → k < n → choose (suc n) (suc k) % suc n ≡ 0 % suc n
choose-mod n k prime h =
    let (s, e) =
      (Coprime_iff-Invertible (suc n) (suc k)).0
        (Prime-Coprime (suc n) (suc k) prime (omega arith) (omega arith)) in
    let c = choose (suc n) (suc k) in
    ap (λ t. t % suc n) (omega arith)
    ∙ sym (mul-cong (suc n) (suc k * s) 1 c c e refl)
    ∙ ap (λ t. t % suc n) (omega (arith, ap (λ t. t * s) (choose_absorb n k)))
    ∙ add-mul-mod_self_left 0 (suc n) (choose n k * s)

terms-mod : (n j a : ℕ) → IsPrime (suc n) → j ≤ n → terms (suc n) j a % suc n ≡ 1 % suc n
unfolding terms
terms-mod n zero a prime h = refl
terms-mod n (suc j) a prime h =
    add-cong (suc n) (terms (suc n) j a) 1 (choose (suc n) (suc j) * a ^ suc j) 0
      (terms-mod n j a prime (omega arith))
      (mul-cong (suc n) (choose (suc n) (suc j)) 0 (a ^ suc j) (a ^ suc j) (choose-mod n j prime h)
          refl
        ∙ ap (λ t. t % suc n) (omega arith))

next_power : (n a : ℕ) → IsPrime (suc n) → (1 + a) ^ suc n % suc n ≡ (1 + a ^ suc n) % suc n
unfolding terms
next_power n a prime =
    ap (λ t. t % suc n)
      (binomial (suc n) a ∙ ap (λ c. terms (suc n) n a + c * a ^ suc n) (choose_self (suc n)))
    ∙ add-cong (suc n) (terms (suc n) n a) 1 (1 * a ^ suc n) (a ^ suc n)
        (terms-mod n n a prime (omega arith)) (ap (λ t. t % suc n) (omega arith))

fermat_power : (n a : ℕ) → IsPrime (suc n) → a ^ suc n % suc n ≡ a % suc n
fermat_power n zero prime = ap (λ t. t % suc n) (pow-suc 0 n ∙ omega arith)
fermat_power n (suc a) prime =
    ap (λ t. t ^ suc n % suc n) (omega arith)
    ∙ next_power n a prime
    ∙ add-cong (suc n) 1 1 (a ^ suc n) a refl (fermat_power n a prime)
    ∙ ap (λ t. t % suc n) (omega arith)

-- Modulo a prime the power p - 1 of a number that has an inverse is one.
pub fermat : (p a : ℕ) → IsPrime p → Invertible p a → a ^ (p - 1) % p ≡ 1 % p
fermat zero a prime inv = absurd (omega (arith, prime.big))
fermat (suc n) a prime (s, e) =
    let less : suc n - 1 ≡ n = omega arith in
    let once : a ^ n ≡ 1 * a ^ n = omega arith in
    ap (λ k. a ^ k % suc n) less
    ∙ ap (λ t. t % suc n) once
    ∙ sym (mul-cong (suc n) (a * s) 1 (a ^ n) (a ^ n) e refl)
    ∙ ap (λ t. t % suc n) (omega (arith, ap (λ t. t * s) (pow-suc a n)))
    ∙ mul-cong (suc n) (a ^ suc n) a s s (fermat_power n a prime) refl
    ∙ e

-- A number that is one modulo two primes is one modulo their product.
pub one_mod_product : (p q x : ℕ) → Bezout p q → x % p ≡ 1 → x % q ≡ 1 → 1 < p * q → x % (p * q) ≡ 1
one_mod_product p q x (u, v, b) e f big =
    let y = x - 1 in
    let i = x / p in
    let j = x / q in
    let xi : x ≡ 1 + p * i = omega (arith, e, div-add-mod x p) in
    let xj : x ≡ 1 + q * j = omega (arith, f, div-add-mod x q) in combine i j xi xj b
  where
    combine :
        (i j : ℕ)
        → x ≡ 1 + p * i
        → x ≡ 1 + q * j
        → ((p * u ≡ 1 + q * v) ⊎ (q * v ≡ 1 + p * u))
        → x % (p * q) ≡ 1
    combine i j xi xj (inl b) =
        sym (add-mul-mod_self_left x (p * q) (i * v))
        ∙ ap (λ t. t % (p * q))
            (omega (
              arith,
              xi,
              xj,
              ap (λ t. t * (p * u)) xj,
              ap (λ t. t * (q * v)) xi,
              ap (λ t. t * (p * u)) xi,
              ap (λ t. x * t) b,
              ap (λ t. p * i * t) b,
              ap (λ t. q * j * t) b,
            ))
        ∙ add-mul-mod_self_left 1 (p * q) (j * u)
        ∙ mod-eq_of_lt big
    combine i j xi xj (inr b) =
        sym (add-mul-mod_self_left x (p * q) (j * u))
        ∙ ap (λ t. t % (p * q))
            (omega (
              arith,
              xi,
              xj,
              ap (λ t. p * i * t) b,
              ap (λ t. q * j * t) b,
              ap (λ t. t * (p * u)) xj,
              ap (λ t. t * (p * u)) xi,
            ))
        ∙ add-mul-mod_self_left 1 (p * q) (i * v)
        ∙ mod-eq_of_lt big

-- An inverse modulo a product is one modulo each factor.
pub factor_left : (p q r : ℕ) → Invertible (p * q) r → Invertible p r
factor_left p q r (s, e) = (
  s,
  sym (mod-mod_of_dvd p (r * s) (dvd-mul_right p q))
      ∙ ap (λ t. t % p) e
      ∙ mod-mod_of_dvd p 1 (dvd-mul_right p q),
)

pub factor_right : (p q r : ℕ) → Invertible (p * q) r → Invertible q r
factor_right p q r h = factor_left q p r (subst (λ n. Invertible n r) (mul_comm p q) h)

Primes-Coprime : (p q : ℕ) → IsPrime p → IsPrime q → p ≢ q → Coprime p q
Primes-Coprime p q hp hq differ d x y = elim (hp.only d x) [
  | inl e ↦ e
  | inr e ↦ elim (hq.only d y) [ inl f ↦ f | inr f ↦ absurd (differ (sym e ∙ f)) ]
]

-- Modulo the product of two primes, (p - 1)(q - 1) is a period of the numbers that have an inverse.
pub product_period :
    (p q r : ℕ)
    → IsPrime p
    → IsPrime q
    → p ≢ q
    → Invertible (p * q) r
    → r ^ ((p - 1) * (q - 1)) % (p * q) ≡ 1
product_period p q r hp hq differ inv =
    one_mod_product p q (r ^ ((p - 1) * (q - 1)))
      (Coprime-Bezout (suc q) p q (omega arith) (Primes-Coprime p q hp hq differ))
      (one_power p (q - 1) (p - 1) hp (fermat p r hp (factor_left p q r inv)))
      (ap (λ k. r ^ k % q) (mul_comm (p - 1) (q - 1))
        ∙ one_power q (p - 1) (q - 1) hq (fermat q r hq (factor_right p q r inv)))
      (grind (arith, hp.big, hq.big))
  where
    one_power : (m k j : ℕ) → IsPrime m → r ^ j % m ≡ 1 % m → r ^ (j * k) % m ≡ 1
    one_power m k j hm h =
        ap (λ t. t % m) (pow-mul r j k)
        ∙ pow-cong m (r ^ j) 1 k h
        ∙ ap (λ t. t % m) (one_pow k)
        ∙ mod-eq_of_lt hm.big
