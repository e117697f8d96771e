-- ===== src/Pedersen/Keys/Phi.antt =====
-- The steps from a product of two factors to its phi.
use audit_mpc_lib.Common.{ℕ, ◌+◌, ◌-◌, ◌*◌, ◌≤◌, ◌<◌, ◌≡◌, ap, ◌∙◌, arith, subst}

pub product : (a b : ℕ) → (2 + a) * (2 + b) ≡ a * b + 2 * a + 2 * b + 4
product a b = grind arith

pub smaller_product : (a b : ℕ) → (1 + a) * (1 + b) ≡ a * b + a + b + 1
smaller_product a b = grind arith

-- The steps to phi do not go below zero.
pub phi_steps :
    (p q : ℕ)
    → 2 ≤ p
    → 2 ≤ q
    → (p ≤ p * q)
      × (q ≤ p * q - p)
      × (p * q - p - q + 1 ≡ (p - 1) * (q - 1))
      × (0 < p * q)
      × (0 < (p - 1) * (q - 1))
phi_steps p q hp hq =
    subst
      (λ p.
        (p ≤ p * q)
        × (q ≤ p * q - p)
        × (p * q - p - q + 1 ≡ (p - 1) * (q - 1))
        × (0 < p * q)
        × (0 < (p - 1) * (q - 1)))
      (rest_of p hp)
      (subst
        (λ q.
          (2 + (p - 2) ≤ (2 + (p - 2)) * q)
          × (q ≤ (2 + (p - 2)) * q - (2 + (p - 2)))
          × ((2 + (p - 2)) * q - (2 + (p - 2)) - q + 1 ≡ (2 + (p - 2) - 1) * (q - 1))
          × (0 < (2 + (p - 2)) * q)
          × (0 < (2 + (p - 2) - 1) * (q - 1)))
        (rest_of q hq) (shifted (p - 2) (q - 2)))
  where
    rest_of : (k : ℕ) → 2 ≤ k → 2 + (k - 2) ≡ k
    rest_of k h = omega arith

    shifted :
        (a b : ℕ)
        → (2 + a ≤ (2 + a) * (2 + b))
          × (2 + b ≤ (2 + a) * (2 + b) - (2 + a))
          × ((2 + a) * (2 + b) - (2 + a) - (2 + b) + 1 ≡ (2 + a - 1) * (2 + b - 1))
          × (0 < (2 + a) * (2 + b))
          × (0 < (2 + a - 1) * (2 + b - 1))
    shifted a b =
        let whole = product a b in
        let less : (2 + a - 1) * (2 + b - 1) ≡ a * b + a + b + 1 =
          ap (λ k. k * (2 + b - 1)) (one_less a)
          ∙ ap (λ k. (1 + a) * k) (one_less b)
          ∙ smaller_product a b in
        (
          omega (arith, whole),
          omega (arith, whole),
          omega (arith, whole, less),
          omega (arith, whole),
          omega (arith, less),
        )
      where
        one_less : (k : ℕ) → 2 + k - 1 ≡ 1 + k
        one_less k = omega arith
