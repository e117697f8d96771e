-- ===== src/Bignum/Integers/Model.antt =====
-- A library that never fails, computed on the natural numbers: what the interface asks for can be met.
use Prim.Native.Nat.{◌∣◌}
use native.Mathlib.Nat.{dvd-mod_iff, dvd_refl, dvd-zero, le_of_dvd, mod-eq-zero_of_dvd}
use audit_mpc_lib.Common.{
  ℕ, zero, suc, ◌+◌, ◌-◌, ◌*◌, ◌/◌, ◌%◌, ◌^◌, ◌<◌, ◌≤◌, ◌≡◌, refl, sym, subst, true, false, ltb,
  ltb→ge, ◌==◌, if◌then◌else◌, Bool-cases, try_first, try_first_lem, not, ◌||◌, inl, inr, some,
  arith,
}
use audit_mpc_lib.Bignum.Model.{digits}
use audit_mpc_lib.Bignum.Modexp.Model.{working_modexp, gcd_steps}
use audit_mpc_lib.Bignum.Integers.{Integers, IntegersDocumented, IsPrime}

-- Of primes it knows 11 and 7.
abbrev pub working_integers : Integers (Unit {0})
working_integers = record {
  ctx_secure_new = λ w. (some tt, w);
  dup = λ n w. (some n, w);
  add_word = λ a b w. (some (a + b), w);
  sub_word = λ a b w. (some (a - b), w);
  div = λ a b w. (some (a / b), w);
  sqr = λ a w. (some (a * a), w);
  get_word = λ a. a;
  prime_in_class = λ bits add rem w. (some (if rem == 3 then 11 else 7), w);
  get_error = λ w. (0, w);
}

-- Every divisor is tried.
pub IsPrime-by :
    (p : ℕ)
    → 1 < p
    → try_first (λ d. not (p % d == 0) || (d == 1) || (d == p)) (suc p) ≡ true
    → IsPrime p
IsPrime-by p big tried = record {
  big = big;
  only = λ d x. ground (
    arith,
    try_first_lem (λ d. not (p % d == 0) || (d == 1) || (d == p)) (suc p) d,
    le_of_dvd {m = d} {n = p} (omega arith) x,
    mod-eq-zero_of_dvd d x,
  );
}

pub IsPrime-eleven : IsPrime 11
unfolding try_first
IsPrime-eleven = IsPrime-by 11 (omega arith) refl

pub IsPrime-seven : IsPrime 7
unfolding try_first
IsPrime-seven = IsPrime-by 7 (omega arith) refl

-- No number of digits that is tried before is enough.
digits-le : (fuel k n len : ℕ) → k ≤ len → n < 256 ^ len → digits fuel k n ≤ len
unfolding digits
digits-le zero k n len h small = h
digits-le (suc fuel) k n len h small = elim (Bool-cases (ltb n (256 ^ k))) [
  | inl fits ↦ rw (fits, digits) h
  | inr more ↦ rw (more, digits) (digits-le fuel (suc k) n len (next more) small)
]
  where
    next : ltb n (256 ^ k) ≡ false → suc k ≤ len
    next more = elim (Bool-cases (ltb k len)) [
      | inl less ↦ ground arith
      | inr equal ↦
          let same : k ≡ len = ground arith in
          absurd (omega (arith, ltb→ge n (256 ^ k) more, subst (λ j. n < 256 ^ j) (sym same) small))
    ]

-- Euclid's algorithm ends with a common divisor.
gcd_steps-dvd : (fuel a b : ℕ) → b ≤ fuel → (gcd_steps fuel a b ∣ a) × (gcd_steps fuel a b ∣ b)
unfolding gcd_steps
gcd_steps-dvd zero a b h = (dvd_refl a, subst (λ k. a ∣ k) (omega arith) (dvd-zero a))
gcd_steps-dvd (suc fuel) a zero h = (dvd_refl a, dvd-zero a)
gcd_steps-dvd (suc fuel) a (suc b) h =
    let (first, second) = gcd_steps-dvd fuel (suc b) (a % suc b) (omega arith) in
    ((dvd-mod_iff (gcd_steps fuel (suc b) (a % suc b)) first).0 second, first)

pub working_integers-IntegersDocumented :
    IntegersDocumented (Unit {0}) working_integers working_modexp
working_integers-IntegersDocumented = record {
  ctx_secure_new_lem = λ w. tt;
  dup_lem = λ n w. refl;
  add_word_lem = λ a b w. refl;
  sub_word_lem = λ a b w h. refl;
  div_lem = λ a b w h. refl;
  sqr_lem = λ a w. refl;
  get_word_lem = λ a h. refl;
  prime_three_lem = λ bits w. (IsPrime-eleven, refl);
  prime_seven_lem = λ bits w. (IsPrime-seven, refl);
  get_error_lem = λ w u. refl;
  gcd_dvd_lem = λ a b w. gcd_steps-dvd b a b (omega arith);
  mont_new_lem = λ w. tt;
  mont_set_odd = λ m w h. refl;
  is_prime_lem = λ n d w x h k. refl;
  num_bytes_le = λ n len h. digits-le n 0 n len (omega arith) h;
}
