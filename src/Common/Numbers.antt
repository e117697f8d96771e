-- ===== src/Common/Numbers.antt =====
-- Products modulo a number.
use Prim.Native.Nat.{ℕ, ◌+◌, ◌-◌, ◌*◌, ◌/◌, ◌%◌, ◌<◌}
use mathlib.Core.Path.{◌≡◌, ap, sym, ◌∙◌}
use native.Mathlib.Omega.{arith}
use native.Mathlib.Nat.{
  div-add-mod, mod-mod, mod-add-mod, add-mod-mod, add-mod, add-mod_right, add-mul-mod_self_right,
  mul_comm,
}

pub mul-mod_right : (a x m : ℕ) → a * x % m ≡ a * (x % m) % m
mul-mod_right a x m =
    ap (λ t. t % m) (omega (arith, ap (λ t. a * t) (div-add-mod x m)))
    ∙ add-mul-mod_self_right (a * (x % m)) (a * (x / m)) m

pub mul-mod_left : (x a m : ℕ) → x * a % m ≡ x % m * a % m
mul-mod_left x a m =
    ap (λ t. t % m) (mul_comm x a) ∙ mul-mod_right a x m ∙ ap (λ t. t % m) (mul_comm a (x % m))

-- Sums and products of numbers that leave the same remainder.
pub add-cong : (q a b c d : ℕ) → a % q ≡ b % q → c % q ≡ d % q → (a + c) % q ≡ (b + d) % q
add-cong q a b c d h k =
    add-mod a c q ∙ ap (λ t. (t + c % q) % q) h ∙ ap (λ t. (b % q + t) % q) k ∙ sym (add-mod b d q)

pub mul-cong : (q a b c d : ℕ) → a % q ≡ b % q → c % q ≡ d % q → a * c % q ≡ b * d % q
mul-cong q a b c d h k =
    mul-mod_left a c q
    ∙ ap (λ t. t * c % q) h
    ∙ sym (mul-mod_left b c q)
    ∙ mul-mod_right b c q
    ∙ ap (λ t. b * t % q) k
    ∙ sym (mul-mod_right b d q)

-- What was subtracted comes back.
pub add_sub-mod : (a k q : ℕ) → 0 < q → (a + (k % q + (q - a % q % q)) % q) % q ≡ k % q
add_sub-mod a k q pos =
    add-mod-mod a (k % q + (q - a % q % q)) q
    ∙ sym (mod-add-mod a q (k % q + (q - a % q % q)))
    ∙ ap (λ t. (a % q + (k % q + (q - t))) % q) (mod-mod a q)
    ∙ ap (λ t. t % q) (omega arith)
    ∙ add-mod_right (k % q) q
    ∙ mod-mod k q
