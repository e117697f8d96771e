-- ===== src/Curve/Group/Model.antt =====
-- A group of `q` points, which are their own exponents: what the interface asks for can be met.
use native.Mathlib.Nat.{add-mod, mod-mod}
use audit_mpc_lib.Common.{
  ℕ, zero, suc, ◌+◌, ◌*◌, ◌%◌, ◌^◌, ◌≤◌, ◌<◌, ◌≡◌, ◌≢◌, ◌⊎◌, inl, inr, refl, sym, ap, ◌∙◌, some,
  List, [], ◌∷◌, ok, length, get_or, drop, ◌==◌, arith, mul-mod_left, from_bytes,
}
use audit_mpc_lib.Bignum.Model.{to_bytes, length-to_bytes, from_bytes-to_bytes}
use audit_mpc_lib.Curve.Group.{EcGroup, GroupLaws, dot, each}

-- The point at infinity is one zero byte; the others have their exponent behind the byte 2.
unfoldable pub cyclic_octets : ℕ → List ℕ
cyclic_octets zero = 0 ∷ []
cyclic_octets (suc k) = 2 ∷ to_bytes 32 (suc k)

abbrev pub cyclic : ℕ → EcGroup (Unit {0})
cyclic q = record {
  Point = ℕ;
  point_new = λ w. (some 0, w);
  oct2point = λ s w. (ok (from_bytes 0 (drop 1 s)), w);
  point2oct = λ p w. (some (cyclic_octets p), w);
  mul_generator = λ n w. (some (n % q), w);
  mul_point = λ p n w. (some (p * n % q), w);
  add = λ p r w. (some ((p + r) % q), w);
  points_mul = λ ps cs w. (some (dot ps cs % q), w);
  cmp = λ p r w. (some (p == r), w);
}

octets_read : (p : ℕ) → p < 256 ^ 32 → from_bytes 0 (drop 1 (cyclic_octets p)) ≡ p
unfolding cyclic_octets
octets_read zero small = unfold from_bytes in refl
octets_read (suc k) small = from_bytes-to_bytes 32 (suc k) small

octets_two_forms :
    (p : ℕ)
    → (cyclic_octets p ≡ 0 ∷ [])
      ⊎ ((length (cyclic_octets p) ≡ 33) × (get_or (cyclic_octets p) 0 0 ≢ 0))
unfolding cyclic_octets
octets_two_forms zero = inl refl
octets_two_forms (suc k) = inr (ap suc (length-to_bytes 32 (suc k)), λ e. absurd (omega arith))

dot-mod : (q : ℕ) (ks cs : List ℕ) → dot (each (λ k. k % q) ks) cs % q ≡ dot ks cs % q
unfolding dot
dot-mod q [] cs = refl
dot-mod q (k ∷ ks) [] = refl
dot-mod q (k ∷ ks) (c ∷ cs) =
    add-mod (k % q * c) (dot (each (λ k'. k' % q) ks) cs) q
    ∙ ap (λ t. (t + dot (each (λ k'. k' % q) ks) cs % q) % q) (sym (mul-mod_left k c q))
    ∙ ap (λ t. (k * c % q + t) % q) (dot-mod q ks cs)
    ∙ sym (add-mod (k * c) (dot ks cs) q)

zero-mod : (q : ℕ) → 0 < q → 0 ≡ 0 % q
zero-mod q pos = omega arith

below : (k q : ℕ) → 0 < q → q ≤ 256 ^ 32 → k % q < 256 ^ 32
below k q pos small = omega arith

pub cyclic-GroupLaws :
    (q : ℕ) → 0 < q → q ≤ 256 ^ 32 → GroupLaws (Unit {0}) (cyclic q) q (λ k. k % q) cyclic_octets
cyclic-GroupLaws q pos small = record {
  order_pos = pos;
  period = λ k. sym (mod-mod k q);
  octets_form = λ k. octets_two_forms (k % q);
  octets_lem = λ k n e.
      sym (octets_read (k % q) (below k q pos small))
      ∙ ap (λ s. from_bytes 0 (drop 1 s)) e
      ∙ octets_read (n % q) (below n q pos small);
  point_new_lem = λ w. zero-mod q pos;
  oct2point_lem = λ k w. octets_read (k % q) (below k q pos small);
  point2oct_lem = λ k w. refl;
  mul_generator_lem = λ n w. refl;
  mul_point_lem = λ k n w. sym (mul-mod_left k n q);
  add_lem = λ k n w. sym (add-mod k n q);
  points_mul_lem = λ ks cs w e. dot-mod q ks cs;
  cmp_lem = λ k n w. refl;
}
