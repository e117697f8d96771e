-- ===== src/Paillier/Encryption.antt =====
-- What it means that a number encrypts a plaintext, and how such numbers multiply and decrypt.
use native.Mathlib.Nat.{
  mod-mod, mod-mod_of_dvd, dvd-mul_right, add-mul-mod_self_right, mod-lt, mod-eq_of_lt, mul_comm,
  mul-div_cancel, add-mul-mod_self_left,
}
use audit_mpc_lib.Common.{
  ℕ, ◌+◌, ◌-◌, ◌*◌, ◌/◌, ◌%◌, ◌^◌, ◌<◌, ◌≡◌, refl, sym, ap, ◌∙◌, arith, mul-cong, pow-cong, pow-mul,
  mul-mod_left,
}
use audit_mpc_lib.Paillier.Coprime.{Coprime}
use audit_mpc_lib.Paillier.Units.{
  Invertible, Coprime_iff-Invertible, Invertible-mul, Invertible-pow, Invertible-mod,
  Invertible-inverse, inverse_unique,
}
use audit_mpc_lib.Paillier.Binomial.{mul-pow, one_plus-mul, one_plus-pow, one_plus-mod, lift_one}

-- (1 + m n) rⁿ modulo the square of n, where r has an inverse modulo n.
pub record Encrypts (n m c : ℕ) : Type 0 where
  pub r : ℕ
  pub unit : Invertible n r
  pub form : c ≡ (1 + m * n) * r ^ n % (n * n)

-- The remainder of a ciphertext.
remainder : (n m c : ℕ) (h : Encrypts n m c) → c % (n * n) ≡ (1 + m * n) * h.r ^ n % (n * n)
remainder n m c h = ap (λ t. t % (n * n)) h.form ∙ mod-mod ((1 + m * n) * h.r ^ n) (n * n)

-- Any plaintext with the same remainder modulo n is encrypted too.
reduced : (n m x c : ℕ) → c ≡ (1 + m * n) * x % (n * n) → c ≡ (1 + m % n * n) * x % (n * n)
reduced n m x c e =
    e ∙ mul-cong (n * n) (1 + m * n) (1 + m % n * n) x x (sym (one_plus-mod n m)) refl

pub Encrypts-mul :
    (n a b c d : ℕ) → Encrypts n a c → Encrypts n b d → Encrypts n ((a + b) % n) (c * d % (n * n))
Encrypts-mul n a b c d h k = record {
  r = h.r * k.r;
  unit = Invertible-mul n h.r k.r h.unit k.unit;
  form = reduced n (a + b) ((h.r * k.r) ^ n) (c * d % (n * n)) (
      mul-cong (n * n) c ((1 + a * n) * h.r ^ n) d ((1 + b * n) * k.r ^ n) (remainder n a c h)
        (remainder n b d k)
      ∙ ap (λ t. t % (n * n)) (omega arith)
      ∙ mul-cong (n * n) ((1 + a * n) * (1 + b * n)) (1 + (a + b) * n) (h.r ^ n * k.r ^ n)
          ((h.r * k.r) ^ n) (one_plus-mul n a b) (ap (λ t. t % (n * n)) (sym (mul-pow h.r k.r n))));
}

pub Encrypts-pow : (n m b c : ℕ) → Encrypts n m c → Encrypts n (b * m % n) (c ^ b % (n * n))
Encrypts-pow n m b c h = record {
  r = h.r ^ b;
  unit = Invertible-pow n h.r b h.unit;
  form = reduced n (b * m) ((h.r ^ b) ^ n) (c ^ b % (n * n)) (
      pow-cong (n * n) c ((1 + m * n) * h.r ^ n) b (remainder n m c h)
      ∙ ap (λ t. t % (n * n)) (mul-pow (1 + m * n) (h.r ^ n) b)
      ∙ mul-cong (n * n) ((1 + m * n) ^ b) (1 + b * m * n) ((h.r ^ n) ^ b) ((h.r ^ b) ^ n)
          (one_plus-pow n m b) (ap (λ t. t % (n * n)) (swap_powers h.r n b)));
}
  where
    swap_powers : (a j k : ℕ) → (a ^ j) ^ k ≡ (a ^ k) ^ j
    swap_powers a j k = sym (pow-mul a j k) ∙ ap (λ t. a ^ t) (mul_comm j k) ∙ pow-mul a k j

module _ (n : ℕ) (big : 1 < n) where
  one_mod : 1 % n ≡ 1
  one_mod = mod-eq_of_lt big

  one_mod_square : 1 % (n * n) ≡ 1
  one_mod_square = mod-eq_of_lt (grind arith)

  -- An encryption has an inverse modulo n,
  Encrypts-Invertible : (m c : ℕ) → Encrypts n m c → Invertible n c
  Encrypts-Invertible m c h =
      Invertible-mod n (h.r ^ n) c
        (sym (
          ap (λ t. t % n) h.form
          ∙ mod-mod_of_dvd n ((1 + m * n) * h.r ^ n) (dvd-mul_right n n)
          ∙ mul-cong n (1 + m * n) 1 (h.r ^ n) (h.r ^ n) (add-mul-mod_self_right 1 m n) refl
          ∙ ap (λ t. t % n) (omega arith)))
        (Invertible-pow n h.r n h.unit)

  -- so that the tests for coprime numbers let it pass.
  pub Encrypts-Coprime : (m c : ℕ) → Encrypts n m c → Coprime c n
  Encrypts-Coprime m c h = (Coprime_iff-Invertible n c).1 (Encrypts-Invertible m c h)

  -- The number that undoes an encryption, from the inverse of its `r`.
  abbrev opposite : ℕ → ℕ → ℕ
  opposite m s = (1 + (n - m % n) * n) * s ^ n

  opposite_lem : (m c : ℕ) (h : Encrypts n m c) → c * opposite m h.unit.0 % (n * n) ≡ 1 % (n * n)
  opposite_lem m c h =
      let s = h.unit.0 in
      mul-cong (n * n) c ((1 + m % n * n) * h.r ^ n) (opposite m s) (opposite m s)
        (remainder n m c h
          ∙ mul-cong (n * n) (1 + m * n) (1 + m % n * n) (h.r ^ n) (h.r ^ n)
              (sym (one_plus-mod n m)) refl)
        refl
      ∙ ap (λ t. t % (n * n))
          (omega (arith, ap (λ t. (1 + m % n * n) * (1 + (n - m % n) * n) * t) (mul-pow h.r s n)))
      ∙ mul-cong (n * n) ((1 + m % n * n) * (1 + (n - m % n) * n)) 1 ((h.r * s) ^ n) 1
          (one_plus-mul n (m % n) (n - m % n) ∙ full m)
          (lift_one n (h.r * s) big (h.unit.1 ∙ one_mod))
    where
      filled : (m : ℕ) → m % n < n → 1 + (m % n + (n - m % n)) * n ≡ 1 + n * n * 1
      filled m h = rw (same (m % n) h) (omega arith)
        where
          same : (k : ℕ) → k < n → k + (n - k) ≡ n
          same k h = omega arith

      full : (m : ℕ) → (1 + (m % n + (n - m % n)) * n) % (n * n) ≡ 1 % (n * n)
      full m =
          ap (λ t. t % (n * n)) (filled m (mod-lt m {m = n} (omega arith)))
          ∙ add-mul-mod_self_left 1 (n * n) 1

  pub Encrypts-Invertible_square : (m c : ℕ) → Encrypts n m c → Invertible (n * n) c
  Encrypts-Invertible_square m c h = (opposite m h.unit.0, opposite_lem m c h)

  -- The inverse modulo the square encrypts the opposite of the plaintext.
  pub Encrypts-inverse :
      (m c x : ℕ)
      → Encrypts n m c
      → x < n * n
      → c * x % (n * n) ≡ 1 % (n * n)
      → Encrypts n (n - m % n) x
  Encrypts-inverse m c x h small e = record {
    r = h.unit.0;
    unit = Invertible-inverse n h.r h.unit.0 h.unit.1;
    form =
        sym (mod-eq_of_lt small)
        ∙ inverse_unique (n * n) c x (opposite m h.unit.0) e (opposite_lem m c h);
  }

  -- L(c^lamda mod n²) mu mod n gives the plaintext back, where lamda is a period of the numbers that
  -- have an inverse, and mu its inverse.
  module _ (lamda mu : ℕ) (period : (r : ℕ) → Invertible n r → r ^ lamda % n ≡ 1)
      (inverse : lamda * mu % n ≡ 1) where
    pub decrypt_power : (m c : ℕ) → Encrypts n m c → c ^ lamda % (n * n) ≡ 1 + lamda * m % n * n
    decrypt_power m c h =
        pow-cong (n * n) c ((1 + m * n) * h.r ^ n) lamda (remainder n m c h)
        ∙ ap (λ t. t % (n * n))
            (mul-pow (1 + m * n) (h.r ^ n) lamda
              ∙ ap (λ t. (1 + m * n) ^ lamda * t)
                  (sym (pow-mul h.r n lamda)
                    ∙ ap (λ t. h.r ^ t) (mul_comm n lamda)
                    ∙ pow-mul h.r lamda n))
        ∙ mul-cong (n * n) ((1 + m * n) ^ lamda) (1 + lamda * m * n) ((h.r ^ lamda) ^ n) 1
            (one_plus-pow n m lamda) (lift_one n (h.r ^ lamda) big (period h.r h.unit))
        ∙ ap (λ t. t % (n * n)) (omega arith)
        ∙ sym (one_plus-mod n (lamda * m))
        ∙ mod-eq_of_lt (below (lamda * m % n) (mod-lt (lamda * m) {m = n} (omega arith)))
      where
        below : (k : ℕ) → k < n → 1 + k * n < n * n
        below k h = grind arith

    pub decrypt_lem :
        (m c : ℕ) → m < n → Encrypts n m c → (c ^ lamda % (n * n) - 1) / n * mu % n ≡ m
    decrypt_lem m c small h =
        ap (λ t. (t - 1) / n * mu % n) (decrypt_power m c h)
        ∙ ap (λ t. t / n * mu % n) (omega arith)
        ∙ ap (λ t. t * mu % n) (mul-div_cancel (lamda * m % n) (omega arith))
        ∙ sym (mul-mod_left (lamda * m) mu n)
        ∙ ap (λ t. t % n) (omega arith)
        ∙ mul-cong n (lamda * mu) 1 m m (inverse ∙ sym one_mod) refl
        ∙ ap (λ t. t % n) (omega arith)
        ∙ mod-eq_of_lt small
