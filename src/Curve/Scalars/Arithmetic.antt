-- ===== src/Curve/Scalars/Arithmetic.antt =====
-- The scalar functions compute in the field of the group order.
use audit_mpc_lib.Common.{
  try, ◌⊎◌, inl, inr, ◌≢◌, weaken_rule, call_rule, ℕ, ◌+◌, ◌-◌, ◌*◌, ◌%◌, ◌^◌, ◌≤◌, ◌<◌, ◌≡◌, true,
  Option, none, some, List, ◌∷◌, length, arith, Call, Ensures, Documents, from_bytes, try_rule,
}
use audit_mpc_lib.Bignum.{Bignum, Documented}
use audit_mpc_lib.Curve.Status.{unknown_error, out_of_memory}
use audit_mpc_lib.Curve.Scalars.{
  binary, add_scalars, sub_scalars, mul_scalars, inverse, rand, scalar_size,
}

-- A result in the code's encoding: 32 bytes that stand for `n`.
abbrev pub Encodes : ℕ → List ℕ → Type 0
Encodes n s = (length s ≡ scalar_size) × (from_bytes 0 s ≡ n)

mod_small : (n q : ℕ) → 0 < q → q ≤ 256 ^ scalar_size → n % q < 256 ^ scalar_size
mod_small n q pos small = omega arith

abbrev IsInverse : ℕ → ℕ → ℕ → Type 0
IsInverse q a r = (r < q) × (a * r % q ≡ 1 % q)

module _ {W : Type 0} (R : Type 0) (bn : Bignum W) (law : Documented R bn) where
  pad_rule :
      (r : ℕ)
      → r < 256 ^ scalar_size
      → Ensures R (Encodes r) (try unknown_error (bn.bn2binpad r scalar_size))
  pad_rule r h =
      try_rule R unknown_error (bn.bn2binpad r scalar_size)
        (λ w. law.bn2binpad_lem r scalar_size w h)

  exists_inverse :
      (a m x : ℕ) (P : ℕ → Type 0) (r : Option ℕ)
      → Documents (¬ R ⊎ ((y : ℕ) → a * y % m ≢ 1 % m)) P r
      → a * x % m ≡ 1 % m
      → Documents (¬ R) P r
  exists_inverse a m x P none (inl h) e = h
  exists_inverse a m x P none (inr h) e = absurd (h x e)
  exists_inverse a m x P (some r) h e = h

  binary_lem :
      (op : ℕ → ℕ → ℕ → Call W ℕ) (f : ℕ → ℕ → ℕ) (q a b : ℕ) (xs ys : List ℕ)
      → ((x y : ℕ) (w : W) → Documents (¬ R) (λ r. r ≡ f x y) (op x y q w).0)
      → ((x y : ℕ) → f x y < 256 ^ scalar_size)
      → Ensures R
          (Encodes (f (from_bytes 0 (a ∷ xs)) (from_bytes 0 (b ∷ ys))))
          (binary bn op (some (record { order = q })) true (some (a ∷ xs)) (some (b ∷ ys)))
  unfolding binary
  binary_lem op f q a b xs ys hop small =
      call_rule R out_of_memory bn.ctx_new law.ctx_new_lem λ _ _.
        call_rule R out_of_memory bn.get law.get_lem λ _ _.
          call_rule R out_of_memory (bn.bin2bn (a ∷ xs)) (law.bin2bn_lem (a ∷ xs)) λ x hx.
            call_rule R out_of_memory bn.get law.get_lem λ _ _.
              call_rule R out_of_memory (bn.bin2bn (b ∷ ys)) (law.bin2bn_lem (b ∷ ys)) λ y hy.
                call_rule R unknown_error (λ w. op x y q w) (hop x y)
                  λ r hr. rw (← hx, ← hy, ← hr) (pad_rule r (rw hr (small x y)))

  -- On operands of one byte or more the sum modulo the group order comes back in 32 bytes; the
  -- function fails only where memory runs out.
  pub add_scalars_lem :
      (q a b : ℕ) (xs ys : List ℕ)
      → 0 < q
      → q ≤ 256 ^ scalar_size
      → Ensures R
          (Encodes ((from_bytes 0 (a ∷ xs) + from_bytes 0 (b ∷ ys)) % q))
          (add_scalars bn (some (record { order = q })) true (some (a ∷ xs)) (some (b ∷ ys)))
  unfolding add_scalars
  add_scalars_lem q a b xs ys pos small =
      binary_lem bn.mod_add (λ x y. (x + y) % q) q a b xs ys (λ x y w. law.mod_add_lem x y q w pos)
        (λ x y. omega arith)

  -- On operands of one byte or more the difference modulo the group order comes back in 32 bytes; the
  -- function fails only where memory runs out.
  pub sub_scalars_lem :
      (q a b : ℕ) (xs ys : List ℕ)
      → 0 < q
      → q ≤ 256 ^ scalar_size
      → Ensures R
          (Encodes ((from_bytes 0 (a ∷ xs) % q + (q - from_bytes 0 (b ∷ ys) % q)) % q))
          (sub_scalars bn (some (record { order = q })) true (some (a ∷ xs)) (some (b ∷ ys)))
  unfolding sub_scalars
  sub_scalars_lem q a b xs ys pos small =
      binary_lem bn.mod_sub (λ x y. (x % q + (q - y % q)) % q) q a b xs ys
        (λ x y w. law.mod_sub_lem x y q w pos) (λ x y. omega arith)

  -- On operands of one byte or more the product modulo the group order comes back in 32 bytes; the
  -- function fails only where memory runs out.
  pub mul_scalars_lem :
      (q a b : ℕ) (xs ys : List ℕ)
      → 0 < q
      → q ≤ 256 ^ scalar_size
      → Ensures R
          (Encodes (from_bytes 0 (a ∷ xs) * from_bytes 0 (b ∷ ys) % q))
          (mul_scalars bn (some (record { order = q })) true (some (a ∷ xs)) (some (b ∷ ys)))
  unfolding mul_scalars
  mul_scalars_lem q a b xs ys pos small =
      binary_lem bn.mod_mul (λ x y. x * y % q) q a b xs ys (λ x y w. law.mod_mul_lem x y q w pos)
        (λ x y. mod_small (x * y) q pos small)

  -- The inverse modulo the group order of a scalar that has one: 32 bytes, reduced, and the product
  -- with the scalar is 1. The function fails only where memory runs out.
  pub inverse_lem :
      (q x : ℕ) (val : List ℕ)
      → 0 < q
      → q ≤ 256 ^ scalar_size
      → from_bytes 0 val * x % q ≡ 1 % q
      → Ensures R
          (λ s.
            (length s ≡ scalar_size)
            × (from_bytes 0 s < q)
            × (from_bytes 0 val * from_bytes 0 s % q ≡ 1 % q))
          (inverse bn (some (record { order = q })) true (some val))
  unfolding inverse
  inverse_lem q x val pos small e = call_rule R out_of_memory bn.ctx_new law.ctx_new_lem λ _ _.
      call_rule R out_of_memory bn.get law.get_lem λ _ _.
        call_rule R out_of_memory (bn.bin2bn val) (law.bin2bn_lem val) λ v hv.
          call_rule R unknown_error (bn.mod_inverse v q)
            (λ w.
              exists_inverse v q x (IsInverse q v) (bn.mod_inverse v q w).0
                (law.mod_inverse_lem v q w pos) (rw hv e))
            λ r hr.
              weaken_rule R (pad_rule r (omega arith))
                λ s hs. (hs.0, rw hs.1 hr.0, rw (hs.1, ← hv) hr.1)

  -- A random scalar is below the group order, in 32 bytes; the function fails only where memory or
  -- randomness runs out.
  pub rand_lem :
      (q : ℕ)
      → 0 < q
      → q ≤ 256 ^ scalar_size
      → Ensures R
          (λ s. (length s ≡ scalar_size) × (from_bytes 0 s < q))
          (rand bn (some (record { order = q })) true)
  unfolding rand
  rand_lem q pos small = call_rule R out_of_memory bn.get law.get_lem λ _ _.
      call_rule R unknown_error (bn.rand_range q) (λ w. law.rand_range_lem q w pos)
        λ r hr. weaken_rule R (pad_rule r (omega arith)) λ s hs. (hs.0, rw hs.1 hr)
