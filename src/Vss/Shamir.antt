-- ===== src/Vss/Shamir.antt =====
-- What the splitting functions hand out: the shares are the values of one polynomial.
use native.Mathlib.Nat.{add-mod, mod-mod, mod-add-mod, mod-eq_of_lt}
use audit_mpc_lib.Common.{
  ℕ, zero, suc, ◌+◌, ◌-◌, ◌*◌, ◌%◌, ◌^◌, ◌≤◌, ◌<◌, ◌≡◌, refl, sym, ap, ◌∙◌, Option, none, some,
  List, [], ◌∷◌, length, arith, Call, Ensures, Documents, bind_rule, call_rule, pure_rule,
  map_err_rule, weaken_rule, from_bytes, mul-mod_left, ok, Result, Meets,
}
use audit_mpc_lib.Bignum.{Bignum, Documented}
use audit_mpc_lib.Algebra.{Algebra, AlgebraLaws}
use audit_mpc_lib.Curve.Group.{dot, each}
use audit_mpc_lib.Vss.{VssStatus, out_of_memory}
use audit_mpc_lib.Vss.Split.{
  from_mul_status, publish, row_share, share_rows, row_tail, access_rows, reduce_row, reduce_rows,
  reduce_entry,
}
use audit_mpc_lib.Vss.Shares.{eval}

-- The powers of `id` behind `t`.
unfoldable pub powers : ℕ → ℕ → ℕ → List ℕ
powers id zero t = []
powers id (suc k) t = (t * id) ∷ powers id k (t * id)

same : (r q : ℕ) → r < q → r ≡ (r + 0) % q
same r q h = sym (ap (λ n. n % q) (omega arith) ∙ mod-eq_of_lt h)

reduced : (r m q : ℕ) → 0 < q → r ≡ m % q → r < q
reduced r m q pos e = omega arith

added :
    (share m c tmp next d q : ℕ)
    → tmp ≡ m * c % q
    → next ≡ (share + tmp) % q
    → (next + d) % q ≡ (share + (m * c + d)) % q
added share m c tmp next d q htmp hnext =
    ap (λ n. (n + d) % q) hnext
    ∙ mod-add-mod (share + tmp) q d
    ∙ ap (λ n. n % q) (omega arith)
    ∙ ap (λ n. (n + (share + d)) % q) htmp
    ∙ mod-add-mod (m * c) q (share + d)
    ∙ ap (λ n. n % q) (omega arith)

-- The powers times the coefficients are the polynomial's value.
dot-powers : (id t : ℕ) (ks : List ℕ) → dot (powers id (length ks) t) ks ≡ t * id * eval ks id
unfolding dot powers eval
dot-powers id t [] = omega arith
dot-powers id t (k ∷ ks) =
    ap (λ n. t * id * k + n) (dot-powers id (t * id) ks) ∙ factored (t * id) k id (eval ks id)
  where
    factored : (u k id e : ℕ) → u * k + u * id * e ≡ u * (k + id * e)
    factored u k id e = grind arith

dot-row : (id k : ℕ) (ks : List ℕ) → dot (1 ∷ powers id (length ks) 1) (k ∷ ks) ≡ eval (k ∷ ks) id
unfolding dot eval
dot-row id k ks = omega (arith, dot-powers id 1 ks)

-- The rows of the matrix, up to multiples of the group order: `row id` for each id.
abbrev pub SameRows : ℕ → (ℕ → List ℕ) → List ℕ → List (List ℕ) → Type 0
SameRows q row [] [] = Unit {0}
SameRows q row [] (r ∷ rs) = ⊥
SameRows q row (id ∷ ids) [] = ⊥
SameRows q row (id ∷ ids) (r ∷ rs) =
    ((ps : List ℕ) → dot r ps % q ≡ dot (row id) ps % q) × SameRows q row ids rs

-- One share and its point for each id.
abbrev pub SharesOf : ℕ → (ℕ → List ℕ) → List ℕ → List ℕ → List (List ℕ × List ℕ) → Type 0
SharesOf q encoded polynom [] [] = Unit {0}
SharesOf q encoded polynom [] (m ∷ made) = ⊥
SharesOf q encoded polynom (id ∷ ids) [] = ⊥
SharesOf q encoded polynom (id ∷ ids) (m ∷ made) =
    (from_bytes 0 m.0 ≡ eval polynom id % q)
    × (m.1 ≡ encoded (eval polynom id))
    × SharesOf q encoded polynom ids made

module _ {W : Type 0} (R : Type 0) (bn : Bignum W) (law : Documented R bn)
    (calloc : Call W (Unit {0})) (alg : Algebra W) (q : ℕ) (encoded : ℕ → List ℕ)
    (laws : AlgebraLaws R alg q encoded) where
  row_tail_lem : (id k t : ℕ) → Ensures R (λ row. row ≡ powers id k t) (row_tail bn calloc id k t)
  unfolding row_tail powers
  row_tail_lem id zero t = pure_rule R [] refl
  row_tail_lem id (suc k) t = call_rule R out_of_memory bn.get law.get_lem λ _ _.
      call_rule R out_of_memory (bn.copy t) (law.copy_lem t) λ cur hcur.
        call_rule R out_of_memory (bn.mul_word cur id) (law.mul_word_lem cur id) λ next hnext.
          bind_rule R (row_tail_lem id k next) λ rest hrest. pure_rule R (next ∷ rest) (
            let e = hnext ∙ ap (λ c. c * id) hcur in
            ap (λ x. x ∷ rest) e ∙ ap (λ xs. (t * id) ∷ xs) (hrest ∙ ap (powers id k) e))

  pub access_rows_lem :
      (t : ℕ) (ids : List ℕ)
      → Ensures R
          (λ rows. rows ≡ each (λ id. 1 ∷ powers id (t - 1) 1) ids)
          (access_rows bn calloc t ids)
  unfolding access_rows
  access_rows_lem t [] = pure_rule R [] refl
  access_rows_lem t (id ∷ ids) = bind_rule R (row_tail_lem id (t - 1) 1) λ rest hrest.
      bind_rule R (access_rows_lem t ids) λ rows hrows.
        pure_rule R ((1 ∷ rest) ∷ rows)
          (ap (λ xs. (1 ∷ xs) ∷ rows) hrest ∙ ap (λ xs. (1 ∷ powers id (t - 1) 1) ∷ xs) hrows)

  row_share_lem :
      (row polynom : List ℕ) (share : ℕ)
      → share < q
      → Ensures R (λ r. r ≡ (share + dot row polynom) % q) (row_share bn calloc q row polynom share)
  unfolding row_share dot
  row_share_lem [] polynom share h = pure_rule R share (same share q h)
  row_share_lem (m ∷ row) [] share h = pure_rule R share (same share q h)
  row_share_lem (m ∷ row) (c ∷ polynom) share h =
      call_rule R out_of_memory (bn.mod_mul m c q) (λ w. law.mod_mul_lem m c q w laws.order_pos)
        λ tmp htmp.
          call_rule R out_of_memory (bn.mod_add_quick share tmp q)
            (λ w. law.mod_add_quick_lem share tmp q w h (reduced tmp (m * c) q laws.order_pos htmp))
            λ next hnext.
              weaken_rule R
                (row_share_lem row polynom next (reduced next (share + tmp) q laws.order_pos hnext))
                λ r hr. hr ∙ added share m c tmp next (dot row polynom) q htmp hnext

  reduce_entry_lem : (m : ℕ) → Ensures R (λ r. r % q ≡ m % q) (reduce_entry bn calloc q m)
  reduce_entry_lem m = record {
    run = λ w.
        entry_result (bn.modulo m q w).0 (bn.modulo m q w).1 (law.modulo_lem m q w laws.order_pos);
  }
    where
      entry_result :
          (r : Option ℕ) (w : W)
          → Documents (¬ R) (λ x. x ≡ m % q) r
          → Meets {E = VssStatus} R
              (λ x. x % q ≡ m % q)
              (elim r as (λ _. Result VssStatus ℕ × W) [ none ↦ (ok m, w) | some x ↦ (ok x, w) ]).0
      entry_result none w h = refl
      entry_result (some x) w h = ap (λ n. n % q) h ∙ mod-mod m q

  reduce_row_lem :
      (row : List ℕ)
      → Ensures R (λ r. (ps : List ℕ) → dot r ps % q ≡ dot row ps % q) (reduce_row bn calloc q row)
  unfolding reduce_row dot
  reduce_row_lem [] = pure_rule R [] (λ ps. refl)
  reduce_row_lem (m ∷ row) = bind_rule R (reduce_entry_lem m) λ x hx.
      bind_rule R (reduce_row_lem row)
        λ rest hrest. pure_rule R (x ∷ rest) (entry_same m x row rest hx hrest)
    where
      entry_same :
          (m x : ℕ) (row rest : List ℕ)
          → x % q ≡ m % q
          → ((ps : List ℕ) → dot rest ps % q ≡ dot row ps % q)
          → (ps : List ℕ) → dot (x ∷ rest) ps % q ≡ dot (m ∷ row) ps % q
      entry_same m x row rest hx h [] = refl
      entry_same m x row rest hx h (c ∷ ps) =
          add-mod (x * c) (dot rest ps) q
          ∙ ap (λ n. (n + dot rest ps % q) % q)
              (mul-mod_left x c q ∙ ap (λ n. n * c % q) hx ∙ sym (mul-mod_left m c q))
          ∙ ap (λ n. (m * c % q + n) % q) (h ps)
          ∙ sym (add-mod (m * c) (dot row ps) q)

  pub reduce_rows_lem :
      (row : ℕ → List ℕ) (ids : List ℕ)
      → Ensures R (SameRows q row ids) (reduce_rows bn calloc q (each row ids))
  unfolding reduce_rows
  reduce_rows_lem row [] = pure_rule R [] tt
  reduce_rows_lem row (id ∷ ids) =
      bind_rule R (reduce_row_lem (row id))
        λ r hr. bind_rule R (reduce_rows_lem row ids) λ rs hrs. pure_rule R (r ∷ rs) (hr, hrs)

  pub publish_lem :
      (n : ℕ)
      → n < 256 ^ 32
      → Ensures R
          (λ made. (from_bytes 0 made.0 ≡ n) × (made.1 ≡ encoded n))
          (publish bn calloc alg n)
  unfolding publish
  publish_lem n h =
      call_rule R out_of_memory (bn.bn2binpad n 32) (λ w. law.bn2binpad_lem n 32 w h)
        λ s hs.
          bind_rule R
            (map_err_rule R from_mul_status (laws.generator_mul_lem s (some_bytes s hs.0)))
            λ p hp. pure_rule R (s, p) (hs.1, hp ∙ ap encoded hs.1)
    where
      some_bytes : (s : List ℕ) → length s ≡ 32 → 1 ≤ length s
      some_bytes s e = omega arith

  -- On the access matrix of the ids, reduced or not, each share is the value of the polynomial at its
  -- id, modulo the group order, with that multiple of the generator as its point.
  pub share_rows_lem :
      (k : ℕ) (ks ids : List ℕ) (rows : List (List ℕ))
      → SameRows q (λ id. 1 ∷ powers id (length ks) 1) ids rows
      → Ensures R (SharesOf q encoded (k ∷ ks) ids) (share_rows bn calloc alg q (k ∷ ks) rows)
  unfolding share_rows
  share_rows_lem k ks [] [] h = pure_rule R [] tt
  share_rows_lem k ks [] (r ∷ rs) h = absurd h
  share_rows_lem k ks (id ∷ ids) [] h = absurd h
  share_rows_lem k ks (id ∷ ids) (r ∷ rs) h =
      bind_rule R (row_share_lem r (k ∷ ks) 0 laws.order_pos) λ share hshare.
        let value =
          hshare
          ∙ ap (λ n. n % q) (omega arith)
          ∙ h.0 (k ∷ ks)
          ∙ ap (λ n. n % q) (dot-row id k ks) in
        bind_rule R (publish_lem share (small_share share (eval (k ∷ ks) id) value)) λ made hmade.
          bind_rule R (share_rows_lem k ks ids rs h.1) λ rest hrest. pure_rule R (made ∷ rest) (
            hmade.0 ∙ value,
            hmade.1 ∙ ap encoded value ∙ sym (laws.encoded-mod (eval (k ∷ ks) id)),
            hrest,
          )
    where
      small_share : (r m : ℕ) → r ≡ m % q → r < 256 ^ 32
      small_share r m e = let pos = laws.order_pos in let small = laws.order_small in omega arith
