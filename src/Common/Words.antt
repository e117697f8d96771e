-- ===== src/Common/Words.antt =====
-- Unsigned machine integers, and their bytes in memory on a little-endian machine.
use Prim.Native.Nat.{ℕ, ◌+◌, ◌-◌, ◌*◌, ◌/◌, ◌%◌, ◌^◌, ◌<◌, ◌≤◌}
use mathlib.Core.Path.{◌≡◌, ap}
use mathlib.Core.List.{List, [], ◌∷◌, ◌++◌}
use native.Mathlib.Omega.{arith}

-- Subtraction of 32 and of 64 bits: below zero it wraps around.
unfoldable pub sub32 : ℕ → ℕ → ℕ
sub32 a b = (a + (2 ^ 32 - b % 2 ^ 32)) % 2 ^ 32

unfoldable pub sub64 : ℕ → ℕ → ℕ
sub64 a b = (a + (2 ^ 64 - b % 2 ^ 64)) % 2 ^ 64

pub sub32_lem : (a b : ℕ) → b ≤ a → a < 2 ^ 32 → sub32 a b ≡ a - b
unfolding sub32
sub32_lem a b h l = omega arith

pub sub32-sub32 : (a b c : ℕ) → b + c ≤ a → a < 2 ^ 32 → sub32 (sub32 a b) c ≡ a - b - c
sub32-sub32 a b c h l = omega (
  arith,
  ap (λ k. sub32 k c) (sub32_lem a b (omega arith) l),
  sub32_lem (a - b) c (omega arith) (omega arith),
)

pub sub64_lem : (a b : ℕ) → b ≤ a → a < 2 ^ 64 → sub64 a b ≡ a - b
unfolding sub64
sub64_lem a b h l = omega arith

-- `*(uint32_t*)p = n` and `*(uint32_t*)p`
unfoldable pub put32 : ℕ → List ℕ
put32 n = (n % 256) ∷ (n / 256 % 256) ∷ (n / 65536 % 256) ∷ (n / 16777216 % 256) ∷ []

unfoldable pub get32 : List ℕ → ℕ
get32 (a ∷ b ∷ c ∷ d ∷ rest) = a + 256 * b + 65536 * c + 16777216 * d
get32 _ = 0

pub get32-put32 : (n : ℕ) (rest : List ℕ) → n < 2 ^ 32 → get32 (put32 n ++ rest) ≡ n
unfolding get32 put32
get32-put32 n rest h = omega arith
