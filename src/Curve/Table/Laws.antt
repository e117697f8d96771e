-- ===== src/Curve/Table/Laws.antt =====
-- The table of a GFp curve is an implementation of the interface that the protocols use.
use audit_mpc_lib.Common.{
  sym, ◌∙◌, ◌==◌, ℕ, ◌+◌, ◌-◌, ◌*◌, ◌%◌, ◌^◌, ◌≤◌, ◌≡◌, refl, ap, true, some, Option, List, [], ◌∷◌,
  Call, Action, Ensures, Documents, length, from_bytes, arith,
}
use audit_mpc_lib.Bignum.{Bignum, Documented}
use audit_mpc_lib.Algebra.{AlgebraLaws}
use audit_mpc_lib.Curve.Group.{EcGroup, GroupLaws, dot, each}
use audit_mpc_lib.Curve.Status.{EcStatus, CurveType}
use audit_mpc_lib.Curve.Scalars.{add_scalars, sub_scalars, mul_scalars}
use audit_mpc_lib.Curve.Scalars.Arithmetic.{
  Encodes, add_scalars_lem, sub_scalars_lem, mul_scalars_lem, rand_lem,
}
use audit_mpc_lib.Curve.Points.{
  sized, to_buffer, generator_mul, generator_mul_data, verify_linear_combination,
}
use audit_mpc_lib.Curve.Points.Arithmetic.{
  sized-to_buffer, values, generator_mul_data_lem, verify_linear_combination_lem, add_points_lem,
  point_mul_lem,
}
use audit_mpc_lib.Curve.Table.{is_gfp, order_bytes, guarded, gfp_algebra}

module _ {W : Type 0} (R : Type 0) (bn : Bignum W) (law : Documented R bn)
    (calloc : Call W (Unit {0}))
    (calloc_lem : (w : W) → Documents (¬ R) (λ _. Unit {0}) (calloc w).0) (ec : EcGroup W) (q : ℕ)
    (point : ℕ → ec.Point) (octets : ec.Point → List ℕ)
    (group : GroupLaws R ec q point octets) where
  guarded_rule :
      {A : Type 0} {P : A → Type 0} {m : Action W EcStatus A} (curve : CurveType)
      → is_gfp curve ≡ true
      → Ensures R P m
      → Ensures R P (guarded curve m)
  unfolding guarded
  guarded_rule curve e h = rw e h

  buffered : (k : ℕ) → sized (to_buffer (octets (point k))) ≡ octets (point k)
  buffered k = sized-to_buffer (octets (point k)) (group.octets_form k)

  data_lem :
      (s : List ℕ)
      → 1 ≤ length s
      → Ensures R
          (λ p. p ≡ to_buffer (octets (point (from_bytes 0 s))))
          (generator_mul_data bn calloc ec true (some s) true)
  data_lem [] h = absurd (omega arith)
  data_lem (b ∷ bs) h =
      generator_mul_data_lem R bn law calloc calloc_lem ec q point octets group b bs

  combination_lem :
      (k : ℕ) (ks : List ℕ) (ss : List (List ℕ))
      → 1 ≤ length ks
      → length ks ≡ length ss
      → Ensures R
          (λ r. r ≡ (dot ks (values ss) % q == k % q))
          (verify_linear_combination bn calloc ec true
            (some (to_buffer (octets (point k))))
            (some (each (λ j. to_buffer (octets (point j))) ks))
            (some ss)
            true)
  combination_lem k [] ss h e = absurd (omega arith)
  combination_lem k (j ∷ ks) ss h e =
      verify_linear_combination_lem R bn law calloc calloc_lem ec q point octets group k j ks ss e

  operands_lem :
      (op : Option (List ℕ) → Option (List ℕ) → Action W EcStatus (List ℕ)) (f : ℕ → ℕ → ℕ)
      → ((a b : ℕ) (xs ys : List ℕ)
          → Ensures R
              (Encodes (f (from_bytes 0 (a ∷ xs)) (from_bytes 0 (b ∷ ys))))
              (op (some (a ∷ xs)) (some (b ∷ ys))))
      → (a b : List ℕ) → 1 ≤ length a
      → 1 ≤ length b
      → Ensures R (Encodes (f (from_bytes 0 a) (from_bytes 0 b))) (op (some a) (some b))
  operands_lem op f h [] b ha hb = absurd (omega arith)
  operands_lem op f h (a ∷ xs) [] ha hb = absurd (omega arith)
  operands_lem op f h (a ∷ xs) (b ∷ ys) ha hb = h a b xs ys

  -- On a secp256k1, secp256r1 or Stark context over a group whose order is the constant of the curve,
  -- the operations of the table compute in the group of that order: points as multiples of the
  -- generator and scalars modulo the order. They fail only where memory or randomness runs out.
  pub gfp_algebra-AlgebraLaws :
      (curve : CurveType)
      → is_gfp curve ≡ true
      → Encodes q (order_bytes curve)
      → q ≤ 256 ^ 32
      → AlgebraLaws R (gfp_algebra bn calloc ec curve q) q (λ k. to_buffer (octets (point k)))
  unfolding generator_mul
  gfp_algebra-AlgebraLaws curve gfp order small = record {
    order_pos = group.order_pos;
    order_small = small;
    order_lem = order;
    order_internal_lem = refl;
    encoded_lem = λ j k e. group.octets_lem j k (sym (buffered j) ∙ ap sized e ∙ buffered k);
    encoded-mod = λ k. ap (λ p. to_buffer (octets p)) (group.period k);
    generator_mul_data_lem = λ s h. guarded_rule curve gfp (data_lem s h);
    generator_mul_lem = λ s h. guarded_rule curve gfp (data_lem s h);
    verify_linear_combination_lem =
        λ k ks ss h e. guarded_rule curve gfp (combination_lem k ks ss h e);
    add_points_lem = λ j k.
        guarded_rule curve gfp
          (add_points_lem R bn law calloc calloc_lem ec q point octets group j k);
    point_mul_lem = λ k s.
        guarded_rule curve gfp
          (point_mul_lem R bn law calloc calloc_lem ec q point octets group k s);
    add_scalars_lem = λ a b ha hb. guarded_rule curve gfp (
        operands_lem (add_scalars bn (some (record { order = q })) true) (λ x y. (x + y) % q)
          (λ x y xs ys. add_scalars_lem R bn law q x y xs ys group.order_pos small) a b ha hb);
    sub_scalars_lem = λ a b ha hb. guarded_rule curve gfp (
        operands_lem (sub_scalars bn (some (record { order = q })) true)
          (λ x y. (x % q + (q - y % q)) % q)
          (λ x y xs ys. sub_scalars_lem R bn law q x y xs ys group.order_pos small) a b ha hb);
    mul_scalars_lem = λ a b ha hb. guarded_rule curve gfp (
        operands_lem (mul_scalars bn (some (record { order = q })) true) (λ x y. x * y % q)
          (λ x y xs ys. mul_scalars_lem R bn law q x y xs ys group.order_pos small) a b ha hb);
    rand_lem = guarded_rule curve gfp (rand_lem R bn law q group.order_pos small);
  }
