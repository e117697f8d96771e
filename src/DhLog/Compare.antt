-- ===== src/DhLog/Compare.antt =====
-- `cmp_uint256` compares the numbers that two scalars stand for.
use Prim.Native.Nat.{compare, Ordering}
use audit_mpc_lib.Common.{
  ℕ, zero, suc, ◌+◌, ◌*◌, ◌^◌, ◌<◌, ◌≡◌, refl, sym, ap, ◌∙◌, List, [], ◌∷◌, length, All, IsByte,
  arith, from_bytes,
}
use audit_mpc_lib.DhLog.{words64, cmp_words, cmp_uint256}

abbrev from_words : ℕ → List ℕ → ℕ
from_words acc [] = acc
from_words acc (x ∷ xs) = from_words (acc * 2 ^ 64 + x) xs

abbrev Word : ℕ → Type 0
Word x = x < 2 ^ 64

-- Comparing behind the digits `a` and `b` read before.
cmp_words_lem :
    (a b : ℕ) (xs ys : List ℕ)
    → All Word xs
    → All Word ys
    → length xs ≡ length ys
    → compare (from_words a xs) (from_words b ys) ≡ (elim (compare a b) as (λ _. Ordering) [
      | Ordering.lt ↦ Ordering.lt
      | Ordering.gt ↦ Ordering.gt
      | Ordering.eq ↦ cmp_words xs ys
    ])
unfolding cmp_words
cmp_words_lem a b [] [] hx hy e = ground arith
cmp_words_lem a b [] (y ∷ ys) hx hy e = absurd (omega arith)
cmp_words_lem a b (x ∷ xs) [] hx hy e = absurd (omega arith)
cmp_words_lem a b (x ∷ xs) (y ∷ ys) hx hy e =
    ground (arith, cmp_words_lem (a * 2 ^ 64 + x) (b * 2 ^ 64 + y) xs ys)

word64_lt :
    (a b c d e f g h : ℕ)
    → IsByte a × IsByte b × IsByte c × IsByte d × IsByte e × IsByte f × IsByte g × IsByte h
    → Word (from_bytes 0 (a ∷ b ∷ c ∷ d ∷ e ∷ f ∷ g ∷ h ∷ []))
unfolding from_bytes
word64_lt a b c d e f g h bytes = omega arith

from_words64 :
    (k acc : ℕ) (s : List ℕ)
    → length s ≡ 8 * k
    → All IsByte s
    → (from_words acc (words64 s) ≡ from_bytes acc s)
      × All Word (words64 s)
      × (length (words64 s) ≡ k)
unfolding words64
from_words64 zero acc [] e h = (unfold from_bytes in refl, tt, omega arith)
from_words64 (suc k) acc (a ∷ b ∷ c ∷ d ∷ e ∷ f ∷ g ∷ h ∷ s) len
      (ha, (hb, (hc, (hd, (he, (hf, (hg, (hh, hs)))))))) =
    let rest =
      from_words64 k (acc * 2 ^ 64 + from_bytes 0 (a ∷ b ∷ c ∷ d ∷ e ∷ f ∷ g ∷ h ∷ [])) s
        (omega arith) hs in
    (
      rest.0 ∙ unfold from_bytes in ap (λ n. from_bytes n s) (omega arith),
      (word64_lt a b c d e f g h (ha, hb, hc, hd, he, hf, hg, hh), rest.1),
      ap suc rest.2,
    )
from_words64 (suc n) acc [] e h = absurd (omega arith)
from_words64 (suc n) acc (a ∷ []) e h = absurd (omega arith)
from_words64 (suc n) acc (a ∷ b ∷ []) e h = absurd (omega arith)
from_words64 (suc n) acc (a ∷ b ∷ c ∷ []) e h = absurd (omega arith)
from_words64 (suc n) acc (a ∷ b ∷ c ∷ d ∷ []) e h = absurd (omega arith)
from_words64 (suc n) acc (a ∷ b ∷ c ∷ d ∷ f ∷ []) e h = absurd (omega arith)
from_words64 (suc n) acc (a ∷ b ∷ c ∷ d ∷ f ∷ g ∷ []) e h = absurd (omega arith)
from_words64 (suc n) acc (a ∷ b ∷ c ∷ d ∷ f ∷ g ∷ i ∷ []) e h = absurd (omega arith)
from_words64 zero acc (a ∷ s) e h = absurd (omega arith)

-- On scalars of 32 bytes the answer is the comparison of the numbers that they stand for.
pub cmp_uint256-compare :
    (a b : List ℕ)
    → length a ≡ 32
    → length b ≡ 32
    → All IsByte a
    → All IsByte b
    → cmp_uint256 a b ≡ compare (from_bytes 0 a) (from_bytes 0 b)
unfolding cmp_uint256
cmp_uint256-compare a b la lb ha hb =
    let (ea, wa, na) = from_words64 4 0 a la ha in
    let (eb, wb, nb) = from_words64 4 0 b lb hb in
    sym (rw (← ea, ← eb) (cmp_words_lem 0 0 (words64 a) (words64 b) wa wb (omega arith)))
