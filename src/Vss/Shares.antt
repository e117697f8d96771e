-- ===== src/Vss/Shares.antt =====
-- What a share's check decides, and what the ids of a sharing may be.
use native.Mathlib.Nat.{add-mod, mul_assoc}
use audit_mpc_lib.Common.{
  Option, none, weaken_rule, ℕ, zero, suc, ◌+◌, ◌*◌, ◌%◌, ◌^◌, ◌<◌, ◌≡◌, refl, sym, ap, ◌∙◌, some,
  List, [], ◌∷◌, length, arith, ◌==◌, Call, Ensures, Documents, DecidesBy, decided_rule,
  answer_rule, bind_rule, call_rule, try_rule, pure_rule, map_err_rule, from_bytes, mul-mod_left,
  mul-mod_right, try,
}
use audit_mpc_lib.Bignum.{Bignum, Documented}
use audit_mpc_lib.Algebra.{Algebra, AlgebraLaws}
use audit_mpc_lib.Curve.Group.{dot, each}
use audit_mpc_lib.Curve.Points.Arithmetic.{values, length-each}
use audit_mpc_lib.Vss.{
  VssStatus, unknown_error, out_of_memory, invalid_share, next_powers, verify_share,
}

-- The value at `x` of the polynomial with the given coefficients, the constant one first.
unfoldable pub eval : List ℕ → ℕ → ℕ
eval [] x = 0
eval (k ∷ ks) x = k + x * eval ks x

-- The powers that the code computes: each the product of the one before it, reduced.
unfoldable pub reduced_powers : ℕ → ℕ → ℕ → ℕ → List ℕ
reduced_powers q x zero tmp = []
reduced_powers q x (suc n) tmp = (tmp * x % q) ∷ reduced_powers q x n (tmp * x % q)

scaled : (k t e : ℕ) → k * t + t * e ≡ t * (k + e)
scaled k t e = grind arith

-- The combination of the powers is the polynomial's value, modulo the group order.
dot-reduced_powers :
    (q x t : ℕ) (ks : List ℕ)
    → dot ks (reduced_powers q x (length ks) t) % q ≡ t * x * eval ks x % q
unfolding dot reduced_powers eval
dot-reduced_powers q x t [] = ap (λ n. n % q) (omega arith)
dot-reduced_powers q x t (k ∷ ks) =
    let u = t * x % q in
    let d = dot ks (reduced_powers q x (length ks) u) in
    add-mod (k * u) d q
    ∙ ap (λ n. (n + d % q) % q) (sym (mul-mod_right k (t * x) q))
    ∙ ap (λ n. (k * (t * x) % q + n) % q)
        (dot-reduced_powers q x u ks
          ∙ ap (λ n. n % q) (mul_assoc u x (eval ks x))
          ∙ sym (mul-mod_left (t * x) (x * eval ks x) q))
    ∙ sym (add-mod (k * (t * x)) (t * x * (x * eval ks x)) q)
    ∙ ap (λ n. n % q) (scaled k (t * x) (x * eval ks x))

share_value :
    (q x k : ℕ) (ks : List ℕ)
    → dot (k ∷ ks) (1 ∷ reduced_powers q x (length ks) 1) % q ≡ eval (k ∷ ks) x % q
unfolding dot eval
share_value q x k ks =
    add-mod (k * 1) (dot ks (reduced_powers q x (length ks) 1)) q
    ∙ ap (λ n. (k * 1 % q + n) % q) (dot-reduced_powers q x 1 ks)
    ∙ sym (add-mod (k * 1) (1 * x * eval ks x) q)
    ∙ ap (λ n. n % q) (omega arith)

module _ {W : Type 0} (R : Type 0) (bn : Bignum W) (law : Documented R bn)
    (calloc : Call W (Unit {0}))
    (calloc_lem : (w : W) → Documents (¬ R) (λ _. Unit {0}) (calloc w).0) (alg : Algebra W) (q : ℕ)
    (encoded : ℕ → List ℕ) (laws : AlgebraLaws R alg q encoded) where
  padded_lem :
      (n : ℕ) (r : Option (List ℕ))
      → Documents (¬ R) (λ s. (length s ≡ 32) × (from_bytes 0 s ≡ n)) r
      → Documents (¬ R) (λ s. from_bytes 0 s ≡ n) r
  padded_lem n none h = h
  padded_lem n (some s) h = h.1

  reduced_small : (r m : ℕ) → r ≡ m % q → r < 256 ^ 32
  reduced_small r m e = let pos = laws.order_pos in let small = laws.order_small in omega arith

  pad_rule :
      (n : ℕ)
      → n < 256 ^ 32
      → Ensures R (λ s. from_bytes 0 s ≡ n) (try {E = VssStatus} unknown_error (bn.bn2binpad n 32))
  pad_rule n h =
      try_rule R unknown_error (bn.bn2binpad n 32)
        (λ w. padded_lem n (bn.bn2binpad n 32 w).0 (law.bn2binpad_lem n 32 w h))

  next_powers_lem :
      (x n tmp : ℕ)
      → Ensures R
          (λ ss. (values ss ≡ reduced_powers q x n tmp) × (length ss ≡ n))
          (next_powers bn calloc x q n tmp)
  unfolding next_powers reduced_powers
  next_powers_lem x zero tmp = pure_rule R [] (refl, refl)
  next_powers_lem x (suc n) tmp =
      call_rule R out_of_memory (bn.mod_mul tmp x q) (λ w. law.mod_mul_lem tmp x q w laws.order_pos)
        λ next hnext. bind_rule R (pad_rule next (reduced_small next (tmp * x) hnext)) λ s hs.
          bind_rule R (next_powers_lem x n next) λ ss hss. pure_rule R (s ∷ ss) (
            ap (λ t. t ∷ values ss) (hs ∙ hnext)
                ∙ ap (λ t. (tmp * x % q) ∷ t) (hss.0 ∙ ap (reduced_powers q x n) hnext),
            ap suc hss.1,
          )

  share_combination :
      (x j k : ℕ) (ks : List ℕ) (first : List ℕ) (ss : List (List ℕ))
      → from_bytes 0 first ≡ 1
      → (values ss ≡ reduced_powers q x (length (each encoded ks)) 1)
        × (length ss ≡ length (each encoded ks))
      → Ensures R
          (λ r. r ≡ (eval (k ∷ ks) x % q == j % q))
          (alg.verify_linear_combination (encoded j) (each encoded (k ∷ ks)) (first ∷ ss))
  share_combination x j k ks first ss hfirst hss =
      let len = length-each encoded ks in
      weaken_rule R
        (laws.verify_linear_combination_lem j (k ∷ ks) (first ∷ ss) (omega arith)
          (ap suc (sym (hss.1 ∙ len))))
        λ r h.
          h
          ∙ ap (λ n. n == j % q)
              (ap (λ c. dot (k ∷ ks) (c ∷ values ss) % q) hfirst
                ∙ ap (λ cs. dot (k ∷ ks) (1 ∷ cs) % q)
                    (hss.0 ∙ ap (λ n. reduced_powers q x n 1) len)
                ∙ share_value q x k ks)

  -- Given the points of a polynomial's coefficients and a share's point, the check accepts the share
  -- exactly when its exponent is the polynomial's value at the id, modulo the group order, and refuses
  -- it as an invalid share otherwise; other errors occur only where memory runs out.
  pub verify_share_lem :
      (x j k : ℕ) (ks : List ℕ)
      → 1 < q
      → DecidesBy R invalid_share
          (eval (k ∷ ks) x % q == j % q)
          (verify_share bn calloc (some alg) x (some (encoded j)) (some (each encoded (k ∷ ks))))
  unfolding verify_share
  verify_share_lem x j k ks more =
      let b = eval (k ∷ ks) x % q == j % q in
      decided_rule R invalid_share b (try_rule R out_of_memory bn.ctx_new law.ctx_new_lem) λ _ _.
        decided_rule R invalid_share b (try_rule R out_of_memory bn.get law.get_lem) λ _ _.
          decided_rule R invalid_share b
            (try_rule R out_of_memory (bn.set_word x) (law.set_word_lem x))
            λ x' hx.
              decided_rule R invalid_share b (try_rule R out_of_memory bn.get law.get_lem) λ _ _.
                decided_rule R invalid_share b
                  (try_rule R out_of_memory (bn.set_word 1) (law.set_word_lem 1))
                  λ one hone.
                    decided_rule R invalid_share b (try_rule R out_of_memory calloc calloc_lem)
                      λ _ _.
                        rw (hx, hone, laws.order_internal_lem)
                          (decided_rule R invalid_share b (pad_rule 1 (omega arith)) λ first hfirst.
                            decided_rule R invalid_share b
                              (next_powers_lem x (length (each encoded ks)) 1)
                              λ ss hss.
                                decided_rule R invalid_share b
                                  (map_err_rule R (λ _. unknown_error)
                                    (share_combination x j k ks first ss hfirst hss))
                                  λ res hres. answer_rule R invalid_share b res hres)
