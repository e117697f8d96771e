-- ===== src/Curve/Reduce/Bounds.antt =====
-- The borrow that is left over says whether the scalar is below the field order.
use Prim.Native.Nat.{bit_and}
use native.Mathlib.Nat.{pow-suc, mul-le-mul_right}
use audit_mpc_lib.Common.{
  try_first, try_first_lem, subst, ==_iff, ℕ, zero, suc, ◌+◌, ◌*◌, ◌%◌, ◌^◌, ◌<◌, ◌≤◌, ◌≡◌, refl,
  ap, ◌∙◌, true, ◌&&◌, ◌||◌, some, List, [], ◌∷◌, if◌then◌else◌, ◌==◌, Result, ok, err, from_bytes,
  IsByte, All, length, ltb, arith,
}
use audit_mpc_lib.Curve.Status.{
  EcStatus, invalid_parameter, invalid_scalar, CurveType, secp256k1, secp256r1, stark, ed25519,
}
use audit_mpc_lib.Curve.Reduce.{
  secp256k1_field, secp256r1_field, words, borrow, borrow_words, in_field, ec_reduce,
  ec_reduce_stark, mask_top, stark_field,
}

abbrev from_words : ℕ → List ℕ → ℕ
from_words acc [] = acc
from_words acc (x ∷ xs) = from_words (acc * 2 ^ 32 + x) xs

abbrev IsWord : ℕ → Type 0
IsWord x = x < 2 ^ 32

-- One round: the borrow is 1 exactly when the word and the borrow before it do not fit.
borrow_lem :
    (x y cc : ℕ) → IsWord x → IsWord y → cc ≤ 1 → borrow x y cc ≡ (if ltb x (y + cc) then 1 else 0)
borrow_lem x y cc hx hy hc = ground arith

borrow_words_le : (xs ys : List ℕ) → borrow_words xs ys ≤ 1
unfolding borrow_words
borrow_words_le [] ys = omega arith
borrow_words_le (x ∷ xs) [] = omega arith
borrow_words_le (x ∷ xs) (y ∷ ys) = omega arith

-- The comparison of two strings of words, behind the digits read before them.
borrow_words_lem :
    (a b : ℕ) (xs ys : List ℕ)
    → All IsWord xs
    → All IsWord ys
    → length xs ≡ length ys
    → ltb (from_words a xs) (from_words b ys) ≡ (ltb a b || ((a == b) && (borrow_words xs ys == 1)))
unfolding borrow_words
borrow_words_lem a b [] [] hx hy e = ground arith
borrow_words_lem a b [] (y ∷ ys) hx hy e = absurd (omega arith)
borrow_words_lem a b (x ∷ xs) [] hx hy e = absurd (omega arith)
borrow_words_lem a b (x ∷ xs) (y ∷ ys) hx hy e = ground (
  arith,
  borrow_lem x y (borrow_words xs ys),
  borrow_words_le xs ys,
  borrow_words_lem (a * 2 ^ 32 + x) (b * 2 ^ 32 + y) xs ys,
)

four_bytes_lt :
    (a b c d : ℕ)
    → IsByte a
    → IsByte b
    → IsByte c
    → IsByte d
    → IsWord (from_bytes 0 (a ∷ b ∷ c ∷ d ∷ []))
unfolding from_bytes
four_bytes_lt a b c d ha hb hc hd = omega arith

-- Four bytes at a time are one word at a time.
from_words_lem :
    (k acc : ℕ) (s : List ℕ)
    → length s ≡ 4 * k
    → All IsByte s
    → (from_words acc (words s) ≡ from_bytes acc s) × All IsWord (words s) × (length (words s) ≡ k)
unfolding words
from_words_lem zero acc [] e h = (unfold from_bytes in refl, tt, omega arith)
from_words_lem (suc k) acc (a ∷ b ∷ c ∷ d ∷ s) e h =
    let rest =
      from_words_lem k (acc * 2 ^ 32 + from_bytes 0 (a ∷ b ∷ c ∷ d ∷ [])) s (omega arith)
        h.1.1.1.1 in
    (
      rest.0 ∙ unfold from_bytes in ap (λ n. from_bytes n s) (omega arith),
      (four_bytes_lt a b c d h.0 h.1.0 h.1.1.0 h.1.1.1.0, rest.1),
      ap suc rest.2,
    )
from_words_lem (suc k) acc [] e h = absurd (omega arith)
from_words_lem (suc k) acc (a ∷ []) e h = absurd (omega arith)
from_words_lem (suc k) acc (a ∷ b ∷ []) e h = absurd (omega arith)
from_words_lem (suc k) acc (a ∷ b ∷ c ∷ []) e h = absurd (omega arith)
from_words_lem zero acc (a ∷ s) e h = absurd (omega arith)

bit_lem : (n : ℕ) → n ≤ 1 → n ≡ (if n == 1 then 1 else 0)
bit_lem n h = ground arith

-- `in_field` on two scalars of 32 bytes is 1 when the first stands for the smaller number, and 0
-- otherwise.
pub in_field-ltb :
    (val field : List ℕ)
    → length val ≡ 32
    → length field ≡ 32
    → All IsByte val
    → All IsByte field
    → in_field val field ≡ (if ltb (from_bytes 0 val) (from_bytes 0 field) then 1 else 0)
unfolding in_field
in_field-ltb val field hv hf bv bf =
    let (ev, wv, lv) = from_words_lem 8 0 val hv bv in
    let (ef, wf, lf) = from_words_lem 8 0 field hf bf in
    rw (← ev, ← ef, borrow_words_lem 0 0 (words val) (words field) wv wf (omega arith))
      (bit_lem (borrow_words (words val) (words field)) (borrow_words_le (words val) (words field)))

-- The test that both reductions make of `in_field`.
reduce_test :
    (val field : List ℕ) (r : Result EcStatus (List ℕ))
    → in_field val field ≡ (if ltb (from_bytes 0 val) (from_bytes 0 field) then 1 else 0)
    → (if in_field val field == 0 then err invalid_scalar else r)
      ≡ (if ltb (from_bytes 0 val) (from_bytes 0 field) then r else err invalid_scalar)
reduce_test val field r e = ground arith

-- What `ec_reduce` answers, by curve.
abbrev pub ReducePost : CurveType → List ℕ → Result EcStatus (List ℕ) → Type 0
ReducePost secp256k1 val r =
    r
    ≡ (if ltb (from_bytes 0 val) (from_bytes 0 secp256k1_field) then ok val else err invalid_scalar)
ReducePost secp256r1 val r =
    r
    ≡ (if ltb (from_bytes 0 val) (from_bytes 0 secp256r1_field) then ok val else err invalid_scalar)
ReducePost ed25519 val r = r ≡ err invalid_parameter
ReducePost stark val r = r ≡ err invalid_parameter

-- For the two secp curves: a scalar is returned unchanged if it is below the group order, and refused
-- as an invalid scalar if it is not; every other curve is an invalid parameter.
pub ec_reduce_lem :
    (curve : CurveType) (val : List ℕ)
    → length val ≡ 32
    → All IsByte val
    → ReducePost curve val (ec_reduce (some curve) true (some val))
unfolding ec_reduce
ec_reduce_lem secp256k1 val h b =
    reduce_test val secp256k1_field (ok val)
      (in_field-ltb val secp256k1_field h refl b (omega arith))
ec_reduce_lem secp256r1 val h b =
    reduce_test val secp256r1_field (ok val)
      (in_field-ltb val secp256r1_field h refl b (omega arith))
ec_reduce_lem ed25519 val h b = refl
ec_reduce_lem stark val h b = refl

low_nibble : (b : ℕ) → b < 256 → bit_and b 0x0f ≡ b % 16
unfolding try_first
low_nibble b h = (==_iff _ _).0 (try_first_lem (λ x. bit_and x 0x0f == x % 16) 256 b h refl)

from_bytes_cons : (acc b : ℕ) (s : List ℕ) → from_bytes acc (b ∷ s) ≡ from_bytes (acc * 256 + b) s
unfolding from_bytes
from_bytes_cons acc b s = refl

pow_cons : (b : ℕ) (s : List ℕ) → 256 ^ length (b ∷ s) ≡ 256 ^ length s * 256
pow_cons b s = pow-suc 256 (length s)

shift : (acc b p : ℕ) → (acc * 256 + b) * p ≡ acc * (p * 256) + b * p
shift acc b p = grind arith

from_bytes_linear :
    (acc : ℕ) (s : List ℕ) → from_bytes acc s ≡ acc * 256 ^ length s + from_bytes 0 s
from_bytes_linear acc [] = unfold from_bytes in omega arith
from_bytes_linear acc (b ∷ s) =
    rw (from_bytes_cons acc b s, from_bytes_cons 0 b s, pow_cons b s)
      (omega (
        arith,
        from_bytes_linear (acc * 256 + b) s,
        from_bytes_linear (0 * 256 + b) s,
        shift acc b (256 ^ length s),
        shift 0 b (256 ^ length s),
      ))

room : (b p : ℕ) → b < 256 → b * p + p ≤ p * 256
room b p h = omega (arith, mul-le-mul_right p h)

from_bytes_bound : (s : List ℕ) → All IsByte s → from_bytes 0 s < 256 ^ length s
from_bytes_bound [] h = unfold from_bytes in omega arith
from_bytes_bound (b ∷ s) (hb, h) =
    rw (from_bytes_cons 0 b s, pow_cons b s)
      (omega (
        arith,
        from_bytes_linear (0 * 256 + b) s,
        from_bytes_bound s h,
        shift 0 b (256 ^ length s),
        room b (256 ^ length s) hb,
      ))

mask_top_lem :
    (b : ℕ) (s : List ℕ)
    → length s ≡ 31
    → All IsByte s
    → IsByte b
    → from_bytes 0 (b % 16 ∷ s) ≡ from_bytes 0 (b ∷ s) % 2 ^ 252
mask_top_lem b s e h hb =
    let bound : from_bytes 0 s < 256 ^ 31 =
      subst (λ n. from_bytes 0 s < 256 ^ n) e (from_bytes_bound s h) in
    let lin : (n : ℕ) → from_bytes n s ≡ n * 256 ^ 31 + from_bytes 0 s =
      λ n. subst (λ k. from_bytes n s ≡ n * 256 ^ k + from_bytes 0 s) e (from_bytes_linear n s) in
    rw (from_bytes_cons 0 b s, from_bytes_cons 0 (b % 16) s)
      (omega (arith, lin (0 * 256 + b), lin (0 * 256 + b % 16)))

-- The Stark curve: the four top bits are cleared, so the value is taken modulo 2 ^ 252, and the result
-- is that scalar if it is below the group order; otherwise the scalar is refused as invalid.
pub ec_reduce_stark_lem :
    (val : List ℕ)
    → length val ≡ 32
    → All IsByte val
    → (ec_reduce_stark (some stark) true (some val) ≡ (
        if ltb (from_bytes 0 val % 2 ^ 252) (from_bytes 0 stark_field)
        then ok (mask_top val)
        else err invalid_scalar))
      × (from_bytes 0 (mask_top val) ≡ from_bytes 0 val % 2 ^ 252)
unfolding ec_reduce_stark
ec_reduce_stark_lem [] h b = absurd (omega arith)
ec_reduce_stark_lem (x ∷ s) h (hx, hs) =
    let masked : from_bytes 0 (mask_top (x ∷ s)) ≡ from_bytes 0 (x ∷ s) % 2 ^ 252 =
      rw (low_nibble x hx) (mask_top_lem x s (omega arith) hs hx) in
    (
      rw (← masked) (
          reduce_test (mask_top (x ∷ s)) stark_field (ok (mask_top (x ∷ s))) (
            in_field-ltb (mask_top (x ∷ s)) stark_field h refl
              (rw (low_nibble x hx) (omega arith), hs) (omega arith))),
      masked,
    )
