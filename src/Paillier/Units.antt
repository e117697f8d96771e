-- ===== src/Paillier/Units.antt =====
-- Numbers that can be inverted modulo n, which the Paillier code tests for and draws.
use native.Mathlib.Nat.{
  dvd-mod_iff, eq-one_of_dvd-one, dvd_refl, dvd-zero, dvd-mul_right_of_dvd, div-add-mod,
  add-mul-mod_self_left, mul_comm, pow-suc, pow-zero,
}
use audit_mpc_lib.Common.{
  ℕ, zero, suc, ◌+◌, ◌*◌, ◌/◌, ◌%◌, ◌^◌, ◌<◌, ◌≡◌, ◌≢◌, Option, none, some, Documents, refl, sym,
  ap, ◌∙◌, ◌⊎◌, inl, inr, ◌↔◌, arith, mul-cong,
}
use audit_mpc_lib.Paillier.Coprime.{Coprime}

-- `r` has an inverse modulo `n`.
abbrev pub Invertible : ℕ → ℕ → Type 0
Invertible n r = (s : ℕ) × (r * s % n ≡ 1 % n)

-- Multiples of the two numbers that differ by one, on the one side or on the other.
abbrev pub Bezout : ℕ → ℕ → Type 0
Bezout a b = (x : ℕ) × (y : ℕ) × ((a * x ≡ 1 + b * y) ⊎ (b * y ≡ 1 + a * x))

Bezout-round : (a b : ℕ) → Bezout b (a % b) → Bezout a b
Bezout-round a b (x, y, inl e) =
    (y, x + a / b * y, inr (omega (arith, e, ap (λ t. t * y) (div-add-mod a b))))
Bezout-round a b (x, y, inr e) =
    (y, x + a / b * y, inl (omega (arith, e, ap (λ t. t * y) (div-add-mod a b))))

pub Coprime-Bezout : (fuel a b : ℕ) → b < fuel → Coprime a b → Bezout a b
Coprime-Bezout zero a b h c = absurd (omega arith)
Coprime-Bezout (suc fuel) a zero h c =
    let e : a ≡ 1 = c a (dvd_refl a) (dvd-zero a) in (1, 0, inl (omega (arith, e)))
Coprime-Bezout (suc fuel) a (suc b) h c =
    Bezout-round a (suc b)
      (Coprime-Bezout fuel (suc b) (a % suc b) (omega arith) λ d x y. c d ((dvd-mod_iff d x).0 y) x)

Bezout-Invertible : (a b : ℕ) → Bezout a b → Invertible b a
Bezout-Invertible a b (x, y, inl e) = (x, ap (λ t. t % b) e ∙ add-mul-mod_self_left 1 b y)
Bezout-Invertible a b (x, y, inr e) = (
  x * (a * x),
  sym (add-mul-mod_self_left (a * (x * (a * x))) b y)
      ∙ ap (λ t. t % b) (omega (arith, e, ap (λ t. t * (a * x)) e))
      ∙ add-mul-mod_self_left 1 b (y * (a * x)),
)

-- To have no common divisor with `n` and to have an inverse modulo `n` are the same.
pub Coprime_iff-Invertible : (n r : ℕ) → Coprime r n ↔ Invertible n r
Coprime_iff-Invertible n r = (
  λ c. Bezout-Invertible r n (Coprime-Bezout (suc n) r n (omega arith) c),
  λ (s, e) d x y.
      eq-one_of_dvd-one
        ((dvd-mod_iff d y).0 (rw e at ((dvd-mod_iff d y).1 (dvd-mul_right_of_dvd d x s)))),
)

pub Invertible-mul : (n a b : ℕ) → Invertible n a → Invertible n b → Invertible n (a * b)
Invertible-mul n a b (s, e) (t, f) =
    (s * t, ap (λ k. k % n) (omega arith) ∙ mul-cong n (a * s) 1 (b * t) 1 e f)

pub Invertible-pow : (n a k : ℕ) → Invertible n a → Invertible n (a ^ k)
Invertible-pow n a zero h = (1, ap (λ t. t * 1 % n) (pow-zero a))
Invertible-pow n a (suc k) h =
    let (s, e) = Invertible-mul n (a ^ k) a (Invertible-pow n a k h) h in
    (s, ap (λ t. t * s % n) (pow-suc a k) ∙ e)

-- The inverse of an inverse.
pub Invertible-inverse : (n a s : ℕ) → a * s % n ≡ 1 % n → Invertible n s
Invertible-inverse n a s e = (a, ap (λ t. t % n) (mul_comm s a) ∙ e)

-- Only the remainder counts.
pub Invertible-mod : (n a b : ℕ) → a % n ≡ b % n → Invertible n a → Invertible n b
Invertible-mod n a b h (s, e) = (s, mul-cong n b a s s (sym h) refl ∙ e)

-- A number some power of which is one has an inverse.
pub Invertible-period : (n a k : ℕ) → a ^ suc k % n ≡ 1 % n → Invertible n a
Invertible-period n a k h = (a ^ k, ap (λ t. t % n) (mul_comm a (a ^ k) ∙ sym (pow-suc a k)) ∙ h)

-- Two inverses of one number leave the same remainder.
pub inverse_unique : (n a s t : ℕ) → a * s % n ≡ 1 % n → a * t % n ≡ 1 % n → s % n ≡ t % n
inverse_unique n a s t e f =
    ap (λ k. k % n) (omega arith)
    ∙ sym (mul-cong n (a * t) 1 s s f refl)
    ∙ ap (λ k. k % n) (omega arith)
    ∙ mul-cong n (a * s) 1 t t e refl
    ∙ ap (λ k. k % n) (omega arith)

-- An inverse that is there is found by a call that fails only where there is none.
pub Invertible-found :
    (R : Type 0) (P : ℕ → Type 0) (n a : ℕ) (o : Option ℕ)
    → Invertible n a
    → Documents (¬ R ⊎ ((x : ℕ) → a * x % n ≢ 1 % n)) P o
    → Documents (¬ R) P o
Invertible-found R P n a (some r) inv d = d
Invertible-found R P n a none inv (inl broken) = broken
Invertible-found R P n a none inv (inr absent) = absurd (absent inv.0 inv.1)
