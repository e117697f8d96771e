-- ===== src/Bignum/Model.antt =====
-- A BIGNUM library that never fails, computed on the natural numbers: what the interface asks for
-- can be met. The inverse is found by trying every number below the modulus.
use native.Mathlib.Decide.{ℕ_discrete}
use native.Mathlib.Nat.{pow-suc}
use audit_mpc_lib.Common.{
  ℕ, zero, suc, ◌+◌, ◌-◌, ◌*◌, ◌/◌, ◌%◌, ◌^◌, ◌<◌, ◌≤◌, ◌≡◌, ◌≢◌, refl, sym, ◌∙◌, Option, some,
  none, List, [], ◌∷◌, ◌++◌, length, arith, from_bytes, length-append, ◌==◌, ==_iff, Bool-cases,
  inl, inr, Documents, mul-mod_right, ◌⊎◌, if◌then◌else◌, ltb, ltb→lt, true, false, subst,
}
use audit_mpc_lib.Bignum.{Bignum, Documented}

-- `n` in `len` digits of base 256.
unfoldable pub to_bytes : ℕ → ℕ → List ℕ
to_bytes zero n = []
to_bytes (suc len) n = to_bytes len (n / 256) ++ (n % 256 ∷ [])

-- The least number of digits of base 256, tried from `k` on.
unfoldable pub digits : ℕ → ℕ → ℕ → ℕ
digits zero k n = k
digits (suc fuel) k n = elim (ltb n (256 ^ k)) [ true ↦ k | false ↦ digits fuel (suc k) n ]

abbrev pub num_bytes : ℕ → ℕ
num_bytes n = digits n 0 n

-- The first `x` below `k`, from above, with a * x ≡ 1.
unfoldable pub find_inverse : ℕ → ℕ → ℕ → Option ℕ
find_inverse a m zero = none
find_inverse a m (suc k) = if a * k % m == 1 % m then some k else find_inverse a m k

abbrev pub working : Bignum (Unit {0})
working = record {
  ctx_new = λ w. (some tt, w);
  get = λ w. (some tt, w);
  bin2bn = λ s w. (some (from_bytes 0 s), w);
  bin2bn_negative = λ w. (none, w);
  bn2binpad = λ n len w. (some (to_bytes len n), w);
  mod_add = λ a b m w. (some ((a + b) % m), w);
  mod_sub = λ a b m w. (some ((a % m + (m - b % m)) % m), w);
  mod_mul = λ a b m w. (some (a * b % m), w);
  mod_inverse = λ a m w. (find_inverse a m m, w);
  rand_range = λ m w. (some (1 % m), w);
  copy = λ a w. (some a, w);
  set_word = λ a w. (some a, w);
  mul_word = λ a n w. (some (a * n), w);
  modulo = λ a m w. (some (a % m), w);
  mod_add_quick = λ a b m w. (some ((a + b) % m), w);
  mod_sub_quick = λ a b m w. (some ((a + (m - b)) % m), w);
  bn2bin = λ n. to_bytes (num_bytes n) n;
}

pub length-to_bytes : (len n : ℕ) → length (to_bytes len n) ≡ len
unfolding to_bytes
length-to_bytes zero n = refl
length-to_bytes (suc len) n =
    omega
      (arith, length-append (to_bytes len (n / 256)) (n % 256 ∷ []), length-to_bytes len (n / 256))

from_bytes_snoc :
    (acc b : ℕ) (s : List ℕ) → from_bytes acc (s ++ (b ∷ [])) ≡ from_bytes acc s * 256 + b
unfolding from_bytes
from_bytes_snoc acc b [] = refl
from_bytes_snoc acc b (x ∷ s) = from_bytes_snoc (acc * 256 + x) b s

pub from_bytes-to_bytes : (len n : ℕ) → n < 256 ^ len → from_bytes 0 (to_bytes len n) ≡ n
unfolding to_bytes
from_bytes-to_bytes zero n h = unfold from_bytes in omega arith
from_bytes-to_bytes (suc len) n h =
    let less : n < 256 ^ len * 256 = rw (← pow-suc 256 len) h in
    omega (
      arith,
      from_bytes_snoc 0 (n % 256) (to_bytes len (n / 256)),
      from_bytes-to_bytes len (n / 256) (omega arith),
    )

digits_lem : (fuel k n : ℕ) → n < 256 ^ (fuel + k) → n < 256 ^ digits fuel k n
unfolding digits
digits_lem zero k n h = subst (λ m. n < 256 ^ m) (omega arith) h
digits_lem (suc fuel) k n h = elim (Bool-cases (ltb n (256 ^ k))) [
  | inl fits ↦ rw (fits, digits) (ltb→lt n (256 ^ k) fits)
  | inr more ↦
      rw (more, digits) (digits_lem fuel (suc k) n (subst (λ m. n < 256 ^ m) (omega arith) h))
]

below_power : (n : ℕ) → n < 256 ^ n
below_power zero = omega arith
below_power (suc n) = omega (arith, below_power n, pow-suc 256 n)

pub num_bytes_lem : (n : ℕ) → n < 256 ^ num_bytes n
num_bytes_lem n = digits_lem n 0 n (subst (λ m. n < 256 ^ m) (omega arith) (below_power n))

abbrev NoInverseBelow : ℕ → ℕ → ℕ → Type 0
NoInverseBelow a m k = (x : ℕ) → x < k → a * x % m ≢ 1 % m

abbrev IsInverse : ℕ → ℕ → ℕ → Type 0
IsInverse a m r = (r < m) × (a * r % m ≡ 1 % m)

extend_search :
    (a m k : ℕ) (r : Option ℕ)
    → a * k % m ≢ 1 % m
    → Documents (NoInverseBelow a m k) (IsInverse a m) r
    → Documents (NoInverseBelow a m (suc k)) (IsInverse a m) r
extend_search a m k (some r) h d = d
extend_search a m k none h d = λ x lt e. elim (ℕ_discrete x k) [
  | yes same ↦ h (rw (← same) e)
  | no other ↦ d x (omega arith) e
]

find_inverse_lem :
    (a m k : ℕ) → k ≤ m → Documents (NoInverseBelow a m k) (IsInverse a m) (find_inverse a m k)
unfolding find_inverse
find_inverse_lem a m zero h = λ x lt. absurd (omega arith)
find_inverse_lem a m (suc k) h = elim (Bool-cases (a * k % m == 1 % m)) [
  | inl found ↦ rw found (h, (==_iff _ _).0 found)
  | inr next ↦ rw next (
      extend_search a m k (find_inverse a m k) (ground arith)
        (find_inverse_lem a m k (omega arith)))
]

search_gives_none :
    (a m : ℕ) (r : Option ℕ)
    → 0 < m
    → Documents (NoInverseBelow a m m) (IsInverse a m) r
    → Documents (¬ Unit {0} ⊎ ((x : ℕ) → a * x % m ≢ 1 % m)) (IsInverse a m) r
search_gives_none a m (some r) h d = d
search_gives_none a m none h d =
    inr (λ x e. d (x % m) (omega arith) (sym (mul-mod_right a x m) ∙ e))

pub working-Documented : Documented (Unit {0}) working
working-Documented = record {
  ctx_new_lem = λ w. tt;
  get_lem = λ w. tt;
  bin2bn_lem = λ s w. refl;
  bn2binpad_lem = λ n len w h. (length-to_bytes len n, from_bytes-to_bytes len n h);
  mod_add_lem = λ a b m w h. refl;
  mod_sub_lem = λ a b m w h. refl;
  mod_mul_lem = λ a b m w h. refl;
  mod_inverse_lem = λ a m w h.
      search_gives_none a m (find_inverse a m m) h (find_inverse_lem a m m (omega arith));
  rand_range_lem = λ m w h. omega arith;
  set_word_lem = λ n w. refl;
  copy_lem = λ n w. refl;
  mul_word_lem = λ a n w. refl;
  modulo_lem = λ a m w h. refl;
  mod_add_quick_lem = λ a b m w ha hb. refl;
}
