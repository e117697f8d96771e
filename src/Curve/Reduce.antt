-- ===== src/Curve/Reduce.antt =====
-- Range tests of GFp_curve_algebra.c: `in_field` subtracts word by word and keeps the borrow, and the
-- two `reduce` functions of the algebra refuse what is not below the group order.
pub mod Bounds
mod Tests
use Prim.Native.Nat.{bit_and}
use audit_mpc_lib.Common.{
  ℕ, ◌+◌, ◌-◌, ◌*◌, ◌/◌, ◌%◌, ◌^◌, Bool, true, false, Option, none, some, List, [], ◌∷◌,
  if◌then◌else◌, ◌==◌, Result, ok, err, from_bytes,
}
use audit_mpc_lib.Curve.Status.{
  EcStatus, invalid_parameter, invalid_scalar, CurveType, secp256k1, secp256r1, stark, ed25519,
}

abbrev pub secp256k1_field : List ℕ
secp256k1_field =
    0xff ∷ 0xff ∷ 0xff ∷ 0xff ∷ 0xff ∷ 0xff ∷ 0xff ∷ 0xff ∷ 0xff ∷ 0xff ∷ 0xff ∷ 0xff ∷ 0xff ∷ 0xff
    ∷ 0xff ∷ 0xfe ∷ 0xba ∷ 0xae ∷ 0xdc ∷ 0xe6 ∷ 0xaf ∷ 0x48 ∷ 0xa0 ∷ 0x3b ∷ 0xbf ∷ 0xd2 ∷ 0x5e
    ∷ 0x8c ∷ 0xd0 ∷ 0x36 ∷ 0x41 ∷ 0x41 ∷ []

abbrev pub secp256r1_field : List ℕ
secp256r1_field =
    0xff ∷ 0xff ∷ 0xff ∷ 0xff ∷ 0x00 ∷ 0x00 ∷ 0x00 ∷ 0x00 ∷ 0xff ∷ 0xff ∷ 0xff ∷ 0xff ∷ 0xff ∷ 0xff
    ∷ 0xff ∷ 0xff ∷ 0xbc ∷ 0xe6 ∷ 0xfa ∷ 0xad ∷ 0xa7 ∷ 0x17 ∷ 0x9e ∷ 0x84 ∷ 0xf3 ∷ 0xb9 ∷ 0xca
    ∷ 0xc2 ∷ 0xfc ∷ 0x63 ∷ 0x25 ∷ 0x51 ∷ []

abbrev pub stark_field : List ℕ
stark_field =
    0x08 ∷ 0x00 ∷ 0x00 ∷ 0x00 ∷ 0x00 ∷ 0x00 ∷ 0x00 ∷ 0x10 ∷ 0xff ∷ 0xff ∷ 0xff ∷ 0xff ∷ 0xff ∷ 0xff
    ∷ 0xff ∷ 0xff ∷ 0xb7 ∷ 0x81 ∷ 0x12 ∷ 0x6d ∷ 0xca ∷ 0xe7 ∷ 0xb2 ∷ 0x32 ∷ 0x1e ∷ 0x66 ∷ 0xa2
    ∷ 0x41 ∷ 0xad ∷ 0xc6 ∷ 0x4d ∷ 0x2f ∷ []

-- The 32-bit words of a scalar, after `bswap_32`.
unfoldable pub words : List ℕ → List ℕ
unfolding from_bytes
words (a ∷ b ∷ c ∷ d ∷ s) = from_bytes 0 (a ∷ b ∷ c ∷ d ∷ []) ∷ words s
words s = []

-- `((v1 - v2 - cc) >> 32) & 1` in `uint64_t`
abbrev pub borrow : ℕ → ℕ → ℕ → ℕ
borrow v1 v2 cc = ((v1 + 2 ^ 64 - v2) % 2 ^ 64 + 2 ^ 64 - cc) % 2 ^ 64 / 2 ^ 32 % 2

-- The loop goes from the last word to the first.
unfoldable pub borrow_words : List ℕ → List ℕ → ℕ
borrow_words (x ∷ xs) (y ∷ ys) = borrow x y (borrow_words xs ys)
borrow_words _ _ = 0

unfoldable pub in_field : List ℕ → List ℕ → ℕ
unfolding borrow_words words
in_field val field = borrow_words (words val) (words field)

-- The orders that `ec_reduce` serves.
abbrev pub reduce_field : CurveType → Option (List ℕ)
reduce_field secp256k1 = some secp256k1_field
reduce_field secp256r1 = some secp256r1_field
reduce_field ed25519 = none
reduce_field stark = none

-- The context is its curve type; `false` is a NULL result pointer.
unfoldable pub ec_reduce : Option CurveType → Bool → Option (List ℕ) → Result EcStatus (List ℕ)
unfolding in_field
ec_reduce (some curve) true (some val) = elim (reduce_field curve) [
  | some field ↦ if in_field val field == 0 then err invalid_scalar else ok val
  | none ↦ err invalid_parameter
]
ec_reduce _ _ _ = err invalid_parameter

-- `tmp[0] &= 0x0f`
abbrev pub mask_top : List ℕ → List ℕ
mask_top [] = []
mask_top (b ∷ s) = bit_and b 0x0f ∷ s

unfoldable pub ec_reduce_stark :
    Option CurveType → Bool → Option (List ℕ) → Result EcStatus (List ℕ)
unfolding in_field
ec_reduce_stark (some stark) true (some val) =
    if in_field (mask_top val) stark_field == 0 then err invalid_scalar else ok (mask_top val)
ec_reduce_stark _ _ _ = err invalid_parameter
