-- ===== src/Vss/Sharing.antt =====
-- The splitting functions as a whole: a sharing of the secret, in which every share is right.
use audit_mpc_lib.Common.{
  subst, ℕ, zero, suc, ◌-◌, ◌^◌, ◌≤◌, ◌<◌, ◌≡◌, refl, sym, ap, ◌∙◌, true, false, ◌||◌, none, some,
  List, [], ◌∷◌, length, arith, Call, Ensures, Meets, Documents, bind_rule, call_rule, pure_rule,
  map_err_rule, from_bytes, ◌==◌, ltb, leb, ok, err, Result, All, Bool-cases, Option-cases, inl,
  inr,
}
use audit_mpc_lib.Bignum.{Bignum, Documented}
use audit_mpc_lib.Algebra.{Algebra, AlgebraLaws}
use audit_mpc_lib.Curve.Group.{each}
use audit_mpc_lib.Vss.{VssStatus, out_of_memory, spinning, VerifiableSecretSharing}
use audit_mpc_lib.Vss.Split.{
  draw, draw_all, publish_all, firsts, seconds, create_shares, split_impl, ids_valid,
  split_with_custom_ids, split, count_from, ones, from_create_status,
}
use audit_mpc_lib.Vss.Shamir.{
  powers, SharesOf, SameRows, access_rows_lem, reduce_rows_lem, publish_lem, share_rows_lem,
}

-- A sharing of `secret`: the coefficients behind it are not zero, their points are published, and each
-- id has the value of the polynomial at it as its share.
pub record IsSharing (q : ℕ) (encoded : ℕ → List ℕ) (secret : ℕ) (ids : List ℕ) (t n : ℕ)
    (v : VerifiableSecretSharing) : Type 0 where
  pub coefficients : List ℕ
  pub count : length coefficients ≡ t - 1
  pub range : All (λ c. (0 < c) × (c < q)) coefficients
  pub coefficient_points : v.coefficient_proofs ≡ each encoded (secret ∷ coefficients)
  pub made : List (List ℕ × List ℕ)
  pub made_shares : v.shares ≡ firsts made
  pub made_points : v.proofs ≡ seconds made
  pub values : SharesOf q encoded (secret ∷ coefficients) ids made
  pub ids_lem : v.ids ≡ ids
  pub threshold_lem : v.threshold ≡ t
  pub num_shares_lem : v.num_shares ≡ n

-- The draws of one coefficient end within the fuel, as `R` says.
abbrev pub DrawsEnd : {W : Type 0} → Type 0 → Bignum W → Call W (Unit {0}) → ℕ → ℕ → Type 0
DrawsEnd {W} R bn calloc fuel q = (w : W) → (draw bn calloc fuel q w).0 ≡ err spinning → ¬ R

not_above : (p s : ℕ) → s < p → leb p s ≡ false
not_above p s h = ground arith

in_range : (t n : ℕ) → 1 ≤ t → t ≤ n → (ltb t 1 || ltb n t) ≡ false
in_range t n ht hn = ground arith

ones-powers : (k : ℕ) → ones k ≡ powers 1 k 1
unfolding powers
ones-powers zero = refl
ones-powers (suc k) = ap (λ xs. 1 ∷ xs) (ones-powers k)

pred_suc : (k : ℕ) → suc k - 1 ≡ k
pred_suc k = omega arith

first_row : (t : ℕ) → ones t ≡ powers 1 (suc t - 1) 1
first_row t = ones-powers t ∙ ap (λ k. powers 1 k 1) (sym (pred_suc t))

is_positive : (r : ℕ) → (r == 0) ≡ false → 0 < r
is_positive r e = ground arith

module _ {W : Type 0} (R : Type 0) (bn : Bignum W) (law : Documented R bn)
    (calloc : Call W (Unit {0}))
    (calloc_lem : (w : W) → Documents (¬ R) (λ _. Unit {0}) (calloc w).0) (alg : Algebra W) (q : ℕ)
    (encoded : ℕ → List ℕ) (laws : AlgebraLaws R alg q encoded) (fuel : ℕ)
    (draws_end : DrawsEnd R bn calloc fuel q) where
  abbrev DrawPost : Result VssStatus ℕ → Type 0
  DrawPost (ok r) = (0 < r) × (r < q)
  DrawPost (err e) = (e ≡ spinning → ¬ R) → ¬ R

  draw_fails : (w : W) → (bn.rand_range q w).0 ≡ none → ¬ R
  draw_fails w e = subst (Documents (¬ R) (λ r. r < q)) e (law.rand_range_lem q w laws.order_pos)

  drawn_lt : (w : W) (r : ℕ) → (bn.rand_range q w).0 ≡ some r → r < q
  drawn_lt w r e = subst (Documents (¬ R) (λ r'. r' < q)) e (law.rand_range_lem q w laws.order_pos)

  draw_post : (k : ℕ) (w : W) → DrawPost (draw bn calloc k q w).0
  unfolding draw
  draw_post zero w = λ ends. ends refl
  draw_post (suc k) w = elim (Option-cases (bn.rand_range q w).0) [
    | inl fails ↦ rw (fails, DrawPost) (λ _. draw_fails w fails)
    | inr (r, works) ↦
        rw (works, DrawPost)
          (elim (Bool-cases (r == 0)) [
            | inl again ↦ rw (again, DrawPost) (draw_post k _)
            | inr good ↦ rw (good, DrawPost) (is_positive r good, drawn_lt w r works)
          ])
  ]

  draw_lem : Ensures R (λ r. (0 < r) × (r < q)) (draw bn calloc fuel q)
  draw_lem = record {
    run = λ w. ended (draw bn calloc fuel q w).0 (draw_post fuel w) (draws_end w);
  }
    where
      ended :
          (r : Result VssStatus ℕ)
          → DrawPost r
          → (r ≡ err spinning → ¬ R)
          → Meets R (λ x. (0 < x) × (x < q)) r
      ended (ok x) p h = p
      ended (err e) p h = p (λ same. h (ap err same))

  draw_all_lem :
      (n : ℕ)
      → Ensures R
          (λ cs. (length cs ≡ n) × All (λ c. (0 < c) × (c < q)) cs)
          (draw_all bn calloc fuel q n)
  unfolding draw_all
  draw_all_lem zero = pure_rule R [] (refl, tt)
  draw_all_lem (suc n) = call_rule R out_of_memory bn.get law.get_lem λ _ _.
      bind_rule R draw_lem λ c hc.
        bind_rule R (draw_all_lem n) λ cs hcs. pure_rule R (c ∷ cs) (ap suc hcs.0, (hc, hcs.1))

  fits : (c : ℕ) → c < q → c < 256 ^ 32
  fits c h = let small = laws.order_small in omega arith

  publish_all_lem :
      (cs : List ℕ)
      → All (λ c. (0 < c) × (c < q)) cs
      → Ensures R (λ ps. ps ≡ each encoded cs) (publish_all bn calloc alg cs)
  unfolding publish_all
  publish_all_lem [] h = pure_rule R [] refl
  publish_all_lem (c ∷ cs) (hc, h) =
      bind_rule R (publish_lem R bn law calloc alg q encoded laws c (fits c hc.1)) λ made hmade.
        bind_rule R (publish_all_lem cs h) λ rest hrest.
          pure_rule R (made.1 ∷ rest) (ap (λ x. x ∷ rest) hmade.1 ∙ ap (λ xs. encoded c ∷ xs) hrest)

  -- The points of the secret and of the coefficients.
  publish_polynom_lem :
      (secret : ℕ) (cs : List ℕ)
      → secret < q
      → All (λ c. (0 < c) × (c < q)) cs
      → Ensures R (λ ps. ps ≡ each encoded (secret ∷ cs)) (publish_all bn calloc alg (secret ∷ cs))
  unfolding publish_all
  publish_polynom_lem secret cs hs h =
      bind_rule R (publish_lem R bn law calloc alg q encoded laws secret (fits secret hs))
        λ made hmade. bind_rule R (publish_all_lem cs h) λ rest hrest.
          pure_rule R (made.1 ∷ rest)
            (ap (λ x. x ∷ rest) hmade.1 ∙ ap (λ xs. encoded secret ∷ xs) hrest)

  create_shares_lem :
      (secret t n : ℕ) (ids : List ℕ) (mat : List (List ℕ))
      → secret < q
      → SameRows q (λ id. 1 ∷ powers id (t - 1) 1) ids mat
      → Ensures R
          (IsSharing q encoded secret ids t n)
          (create_shares bn calloc fuel alg secret t n mat ids q)
  unfolding create_shares
  create_shares_lem secret t n ids mat hs same = call_rule R out_of_memory calloc calloc_lem λ _ _.
      bind_rule R (draw_all_lem (t - 1)) λ cs hcs.
        call_rule R out_of_memory calloc calloc_lem λ _ _.
          call_rule R out_of_memory calloc calloc_lem λ _ _.
            call_rule R out_of_memory calloc calloc_lem λ _ _.
              bind_rule R (publish_polynom_lem secret cs hs hcs.1) λ points hpoints.
                call_rule R out_of_memory bn.get law.get_lem λ _ _.
                  call_rule R out_of_memory bn.get law.get_lem λ _ _.
                    bind_rule R
                      (share_rows_lem R bn law calloc alg q encoded laws secret cs ids mat (
                        subst (λ k. SameRows q (λ id. 1 ∷ powers id k 1) ids mat) (sym hcs.0) same))
                      λ made hmade. pure_rule R _ (record {
                        coefficients = cs;
                        count = hcs.0;
                        range = hcs.1;
                        coefficient_points = hpoints;
                        made = made;
                        made_shares = refl;
                        made_points = refl;
                        values = hmade;
                        ids_lem = refl;
                        threshold_lem = refl;
                        num_shares_lem = refl;
                      })

  split_impl_lem :
      (secret : List ℕ) (t n : ℕ) (ids : List ℕ)
      → from_bytes 0 secret < q
      → Ensures R
          (IsSharing q encoded (from_bytes 0 secret) ids t n)
          (split_impl bn calloc fuel alg secret t n (each (λ id. 1 ∷ powers id (t - 1) 1) ids) ids)
  unfolding split_impl
  split_impl_lem secret t n ids h = call_rule R out_of_memory calloc calloc_lem λ _ _.
      call_rule R out_of_memory (bn.bin2bn secret) (law.bin2bn_lem secret) λ s hs.
        call_rule R out_of_memory (bn.bin2bn alg.order) (law.bin2bn_lem alg.order) λ p hp.
          rw (hs, hp ∙ laws.order_lem.1, not_above q (from_bytes 0 secret) h)
            (bind_rule R
              (reduce_rows_lem R bn law calloc alg q encoded laws (λ id. 1 ∷ powers id (t - 1) 1)
                ids)
              λ mat same.
                map_err_rule R from_create_status
                  (create_shares_lem (from_bytes 0 secret) t n ids mat h same))

  -- With a threshold between one and the number of shares, ids that are valid and a secret of one byte
  -- or more below the group order, the split with custom ids makes a sharing: the published points are
  -- those of the secret and of threshold - 1 coefficients that are not zero, and each share is the
  -- polynomial's value at its id, with its point. It fails only where memory runs out or the draws of a
  -- coefficient do not end.
  pub split_with_custom_ids_lem :
      (b : ℕ) (secret : List ℕ) (t n : ℕ) (ids : List ℕ)
      → 1 ≤ t
      → t ≤ n
      → ids_valid ids ≡ true
      → from_bytes 0 (b ∷ secret) < q
      → Ensures R
          (IsSharing q encoded (from_bytes 0 (b ∷ secret)) ids t n)
          (split_with_custom_ids bn calloc fuel (some alg) (some (b ∷ secret)) t n (some ids) true)
  unfolding split_with_custom_ids
  split_with_custom_ids_lem b secret t n ids ht hn valid h =
      rw (in_range t n ht hn, valid)
        (call_rule R out_of_memory bn.ctx_new law.ctx_new_lem λ _ _.
          call_rule R out_of_memory calloc calloc_lem λ _ _.
            call_rule R out_of_memory bn.get law.get_lem λ _ _.
              call_rule R out_of_memory calloc calloc_lem λ _ _.
                bind_rule R (access_rows_lem R bn law calloc alg q encoded laws t ids)
                  λ rows hrows. rw hrows (split_impl_lem (b ∷ secret) t n ids h))

  -- With a threshold that is not zero and at most the number of shares, and a secret of one byte or
  -- more below the group order, the split makes a sharing of it with the ids 1, 2, … up to the number of
  -- shares. It fails only where memory runs out or the draws of a coefficient do not end.
  pub split_lem :
      (b : ℕ) (secret : List ℕ) (t n : ℕ)
      → t ≤ n
      → from_bytes 0 (b ∷ secret) < q
      → Ensures R
          (IsSharing q encoded (from_bytes 0 (b ∷ secret)) (count_from 1 (suc n)) (suc t) (suc n))
          (split bn calloc fuel (some alg) (some (b ∷ secret)) (suc t) (suc n) true)
  unfolding split count_from
  split_lem b secret t n hn h =
      rw (in_range (suc t) (suc n) (omega arith) (omega arith), pred_suc n)
        (call_rule R out_of_memory bn.ctx_new law.ctx_new_lem λ _ _.
          call_rule R out_of_memory calloc calloc_lem λ _ _.
            call_rule R out_of_memory bn.get law.get_lem λ _ _.
              call_rule R out_of_memory calloc calloc_lem λ _ _.
                bind_rule R
                  (access_rows_lem R bn law calloc alg q encoded laws (suc t) (count_from 2 n))
                  λ rows hrows.
                    rw (hrows, first_row t)
                      (split_impl_lem (b ∷ secret) (suc t) (suc n) (1 ∷ count_from 2 n) h))
