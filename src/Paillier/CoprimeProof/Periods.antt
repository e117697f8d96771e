-- ===== src/Paillier/CoprimeProof/Periods.antt =====
-- Numbers that are products of known primes, with a period of the numbers that have an inverse.
use native.Mathlib.Nat.{div-add-mod, mod-eq_of_lt, mod-eq-zero_of_dvd}
use Prim.Native.Nat.{◌∣◌}
use audit_mpc_lib.Common.{
  ℕ, suc, ◌-◌, ◌*◌, ◌/◌, ◌%◌, ◌^◌, ◌<◌, ◌≡◌, refl, ap, ◌∙◌, subst, Bool, true, false, not, ◌&&◌,
  ltb, ◌==◌, ==_iff, List, [], ◌∷◌, inl, inr, arith, try_first, ◌||◌, pow-mul, pow-cong, one_pow,
}
use audit_mpc_lib.Bignum.Integers.{IsPrime}
use audit_mpc_lib.Bignum.Integers.Model.{IsPrime-by}
use audit_mpc_lib.Paillier.Coprime.{Coprime}
use audit_mpc_lib.Paillier.Units.{Invertible, Coprime-Bezout}
use audit_mpc_lib.Paillier.Fermat.{fermat, one_mod_product, factor_left, factor_right}

abbrev pub product : ℕ → List ℕ → ℕ
product p [] = p
product p (q ∷ qs) = p * product q qs

unfoldable pub prime_test : ℕ → Bool
prime_test p = ltb 1 p && try_first (λ d. not (p % d == 0) || (d == 1) || (d == p)) (suc p)

-- The numbers are primes, no two of them equal, and each of them less one divides lamda.
unfoldable pub factors : ℕ → ℕ → List ℕ → Bool
factors lamda p [] = prime_test p && (lamda % (p - 1) == 0)
factors lamda p (q ∷ qs) =
    (prime_test p && (lamda % (p - 1) == 0))
    && ((not (product q qs % p == 0) && ltb 1 (product q qs)) && factors lamda q qs)

both : (a b : Bool) → a && b ≡ true → (a ≡ true) × (b ≡ true)
both true b h = (refl, h)
both false b h = let e : false ≡ true = h in cc

tested-IsPrime : (p : ℕ) → prime_test p ≡ true → IsPrime p
unfolding prime_test
tested-IsPrime p h =
    let (big, tried) =
      both (ltb 1 p) (try_first (λ d. not (p % d == 0) || (d == 1) || (d == p)) (suc p)) h in
    IsPrime-by p (ground (arith, big)) tried

-- A period modulo a prime, from the prime less one.
prime_period :
    (lamda p r : ℕ)
    → (prime_test p && (lamda % (p - 1) == 0)) ≡ true
    → Invertible p r
    → r ^ lamda % p ≡ 1
prime_period lamda p r h inv =
    let (prime, divides) = both (prime_test p) (lamda % (p - 1) == 0) h in
    let good : IsPrime p = tested-IsPrime p prime in
    let whole : lamda ≡ (p - 1) * (lamda / (p - 1)) =
      omega (arith, div-add-mod lamda (p - 1), (==_iff (lamda % (p - 1)) 0).0 divides) in
    ap (λ k. r ^ k % p) whole
    ∙ ap (λ t. t % p) (pow-mul r (p - 1) (lamda / (p - 1)))
    ∙ pow-cong p (r ^ (p - 1)) 1 (lamda / (p - 1)) (fermat p r good inv)
    ∙ ap (λ t. t % p) (one_pow (lamda / (p - 1)))
    ∙ mod-eq_of_lt good.big

pub product_periods :
    (lamda p : ℕ) (ps : List ℕ) (r : ℕ)
    → factors lamda p ps ≡ true
    → Invertible (product p ps) r
    → r ^ lamda % product p ps ≡ 1
unfolding factors
product_periods lamda p [] r h inv = prime_period lamda p r h inv
product_periods lamda p (q ∷ qs) r h inv =
    let m = product q qs in
    let (first, more) =
      both (prime_test p && (lamda % (p - 1) == 0))
        ((not (m % p == 0) && ltb 1 m) && factors lamda q qs) h in
    let (differs, rest) = both (not (m % p == 0) && ltb 1 m) (factors lamda q qs) more in
    let (apart, some) = both (not (m % p == 0)) (ltb 1 m) differs in
    let prime = tested-IsPrime p (both (prime_test p) (lamda % (p - 1) == 0) first).0 in
    one_mod_product p m (r ^ lamda)
      (Coprime-Bezout (suc m) p m (omega arith) (separate p m prime apart))
      (prime_period lamda p r first (factor_left p m r inv))
      (product_periods lamda q qs r rest (factor_right p m r inv))
      (let more : 1 < m = ground (arith, some) in grind (arith, prime.big))
  where
    separate : (p m : ℕ) → IsPrime p → not (m % p == 0) ≡ true → Coprime p m
    separate p m prime apart d x y = elim (prime.only d x) [
      | inl e ↦ e
      | inr e ↦
          let zero' : m % p ≡ 0 = mod-eq-zero_of_dvd p (subst (λ k. k ∣ m) e y) in
          let no : false ≡ true = rw zero' at apart in cc
    ]
