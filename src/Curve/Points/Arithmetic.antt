-- ===== src/Curve/Points/Arithmetic.antt =====
-- The point functions compute with multiples of the generator.
use audit_mpc_lib.Common.{
  ℕ, zero, suc, ◌+◌, ◌-◌, ◌*◌, ◌%◌, ◌≡◌, ◌≢◌, ◌⊎◌, inl, inr, refl, sym, ap, ◌∙◌, true, some, List,
  [], ◌∷◌, ◌++◌, append-nil, Call, Ensures, Documents, call_rule, try_rule, bind_rule, pure_rule,
  weaken_rule, map_err_rule, length, replicate, get_or, bytes_eq, from_bytes, ◌==◌, arith,
}
use audit_mpc_lib.Bignum.{Bignum, Documented}
use audit_mpc_lib.Curve.Group.{EcGroup, GroupLaws, dot, each}
use audit_mpc_lib.Curve.Status.{unknown_error, out_of_memory}
use audit_mpc_lib.Curve.Points.{
  sized, to_buffer, from_openssl_error, read_point, write_point, generator_mul_data, verify,
  sum_loop, verify_sum, read_points, read_scalars, verify_linear_combination, add_points, point_mul,
}

-- What is read back of a buffer is what was written to it.
pub sized-to_buffer :
    (s : List ℕ) → (s ≡ 0 ∷ []) ⊎ ((length s ≡ 33) × (get_or s 0 0 ≢ 0)) → sized (to_buffer s) ≡ s
sized-to_buffer s (inl e) = rw e refl
sized-to_buffer [] (inr (len, nonzero)) = absurd (omega arith)
sized-to_buffer (zero ∷ s) (inr (len, nonzero)) = absurd (nonzero refl)
sized-to_buffer (suc b ∷ s) (inr (len, nonzero)) =
    ap (λ k. (suc b ∷ s) ++ replicate (33 - k) 0) len ∙ append-nil (suc b ∷ s)

-- The numbers that a list of scalars stands for.
abbrev pub values : List (List ℕ) → List ℕ
values ss = each (from_bytes 0) ss

unfoldable pub total : List ℕ → ℕ
total [] = 0
total (k ∷ ks) = k + total ks

plus_zero : (n : ℕ) → 0 + n ≡ n
plus_zero n = omega arith

pub length-each : {A B : Type 0} (f : A → B) (xs : List A) → length (each f xs) ≡ length xs
length-each f [] = refl
length-each f (x ∷ xs) = ap suc (length-each f xs)

module _ {W : Type 0} (R : Type 0) (bn : Bignum W) (law : Documented R bn)
    (calloc : Call W (Unit {0}))
    (calloc_lem : (w : W) → Documents (¬ R) (λ _. Unit {0}) (calloc w).0) (ec : EcGroup W) (q : ℕ)
    (point : ℕ → ec.Point) (octets : ec.Point → List ℕ)
    (group : GroupLaws R ec q point octets) where
  -- The multiple of the generator in the code's encoding, `elliptic_curve256_point_t`.
  abbrev pub encoded : ℕ → List ℕ
  encoded k = to_buffer (octets (point k))

  read_point_lem : (k : ℕ) → Ensures R (λ p. p ≡ point k) (read_point bn calloc ec (encoded k))
  unfolding read_point
  read_point_lem k = map_err_rule R from_openssl_error (
      rw (sized-to_buffer (octets (point k)) (group.octets_form k))
        (record { run = group.oct2point_lem k }))

  write_point_lem :
      (k : ℕ) (p : ec.Point)
      → p ≡ point k
      → Ensures R (λ s. s ≡ encoded k) (write_point bn calloc ec p)
  unfolding write_point
  write_point_lem k p e = rw e (
      call_rule R unknown_error (ec.point2oct (point k)) (group.point2oct_lem k)
        λ s hs. pure_rule R (to_buffer s) (ap to_buffer hs))

  -- The generator times the number that the bytes stand for.
  pub generator_mul_data_lem :
      (b : ℕ) (bs : List ℕ)
      → Ensures R
          (λ s. s ≡ encoded (from_bytes 0 (b ∷ bs)))
          (generator_mul_data bn calloc ec true (some (b ∷ bs)) true)
  unfolding generator_mul_data
  generator_mul_data_lem b bs = call_rule R out_of_memory ec.point_new group.point_new_lem λ _ _.
      call_rule R out_of_memory bn.ctx_new law.ctx_new_lem λ _ _.
        call_rule R out_of_memory bn.get law.get_lem λ _ _.
          call_rule R out_of_memory (bn.bin2bn (b ∷ bs)) (law.bin2bn_lem (b ∷ bs)) λ n hn.
            call_rule R unknown_error (ec.mul_generator n) (group.mul_generator_lem n)
              λ p hp. write_point_lem (from_bytes 0 (b ∷ bs)) p (hp ∙ ap point hn)

  -- A scalar times a multiple of the generator.
  pub point_mul_lem :
      (k : ℕ) (exp : List ℕ)
      → Ensures R
          (λ s. s ≡ encoded (k * from_bytes 0 exp))
          (point_mul bn calloc ec true true (some (encoded k)) (some exp))
  unfolding point_mul
  point_mul_lem k exp = call_rule R out_of_memory ec.point_new group.point_new_lem λ _ _.
      call_rule R out_of_memory bn.ctx_new law.ctx_new_lem λ _ _.
        call_rule R out_of_memory bn.get law.get_lem λ _ _.
          call_rule R out_of_memory (bn.bin2bn exp) (law.bin2bn_lem exp) λ n hn.
            bind_rule R (read_point_lem k) λ p hp. rw hp (
              call_rule R unknown_error (ec.mul_point (point k) n) (group.mul_point_lem k n)
                λ r hr. write_point_lem (k * from_bytes 0 exp) r (hr ∙ ap (λ m. point (k * m)) hn))

  -- The sum of two multiples of the generator.
  pub add_points_lem :
      (j k : ℕ)
      → Ensures R
          (λ s. s ≡ encoded (j + k))
          (add_points bn calloc ec true true (some (encoded j)) (some (encoded k)))
  unfolding add_points
  add_points_lem j k = call_rule R out_of_memory ec.point_new group.point_new_lem λ _ _.
      call_rule R out_of_memory ec.point_new group.point_new_lem λ _ _.
        call_rule R out_of_memory bn.ctx_new law.ctx_new_lem λ _ _.
          bind_rule R (read_point_lem j) λ p hp. bind_rule R (read_point_lem k) λ r hr.
            rw (hp, hr)
              (call_rule R unknown_error (ec.add (point j) (point k)) (group.add_lem j k)
                λ t ht. write_point_lem (j + k) t ht)

  -- `verify` compares a point with the generator times the given number.
  pub verify_lem :
      (b : ℕ) (bs p : List ℕ)
      → Ensures R
          (λ r. r ≡ bytes_eq (encoded (from_bytes 0 (b ∷ bs))) p)
          (verify bn calloc ec true (some (b ∷ bs)) (some p) true)
  unfolding verify
  verify_lem b bs p =
      bind_rule R (generator_mul_data_lem b bs)
        λ s hs. pure_rule R (bytes_eq s p) (ap (λ t. bytes_eq t p) hs)

  sum_loop_lem :
      (acc : ℕ) (ks : List ℕ)
      → Ensures R
          (λ p. p ≡ point (acc + total ks))
          (sum_loop bn calloc ec (point acc) (each encoded ks))
  unfolding sum_loop
  sum_loop_lem acc [] = pure_rule R (point acc) (ap point (unfold total in omega arith))
  sum_loop_lem acc (k ∷ ks) = bind_rule R (read_point_lem k) λ p hp. rw hp (
      call_rule R unknown_error (ec.add (point acc) (point k)) (group.add_lem acc k) λ r hr. rw hr (
        weaken_rule R (sum_loop_lem (acc + k) ks)
          λ t ht. ht ∙ ap point (unfold total in omega arith)))

  -- `verify_sum` tells whether the multiples add up to the claimed one, modulo the group order.
  pub verify_sum_lem :
      (k j : ℕ) (ks : List ℕ)
      → Ensures R
          (λ r. r ≡ (total (j ∷ ks) % q == k % q))
          (verify_sum bn calloc ec true (some (encoded k)) (some (each encoded (j ∷ ks))) true)
  unfolding verify_sum
  verify_sum_lem k j ks = call_rule R out_of_memory ec.point_new group.point_new_lem λ _ _.
      call_rule R out_of_memory ec.point_new group.point_new_lem λ start hstart.
        call_rule R out_of_memory ec.point_new group.point_new_lem λ _ _.
          call_rule R out_of_memory bn.ctx_new law.ctx_new_lem λ _ _.
            bind_rule R (read_point_lem k) λ p hp. rw hstart (
              bind_rule R (sum_loop_lem 0 (j ∷ ks)) λ t ht.
                rw (hp, ht, plus_zero (total (j ∷ ks)))
                  (try_rule R unknown_error (ec.cmp (point (total (j ∷ ks))) (point k))
                    (group.cmp_lem (total (j ∷ ks)) k)))

  read_points_lem :
      (ks : List ℕ)
      → Ensures R (λ ps. ps ≡ each point ks) (read_points bn calloc ec (each encoded ks))
  unfolding read_points
  read_points_lem [] = pure_rule R [] refl
  read_points_lem (k ∷ ks) = call_rule R out_of_memory ec.point_new group.point_new_lem λ _ _.
      bind_rule R (read_point_lem k) λ p hp.
        bind_rule R (read_points_lem ks)
          λ ps hps. pure_rule R (p ∷ ps) (ap (λ x. x ∷ ps) hp ∙ ap (λ xs. point k ∷ xs) hps)

  read_scalars_lem :
      (ss : List (List ℕ)) → Ensures R (λ cs. cs ≡ values ss) (read_scalars bn calloc ec ss)
  unfolding read_scalars
  read_scalars_lem [] = pure_rule R [] refl
  read_scalars_lem (s ∷ ss) = call_rule R out_of_memory bn.get law.get_lem λ _ _.
      call_rule R out_of_memory (bn.bin2bn s) (law.bin2bn_lem s) λ c hc.
        bind_rule R (read_scalars_lem ss)
          λ cs hcs. pure_rule R (c ∷ cs) (ap (λ x. x ∷ cs) hc ∙ ap (λ xs. from_bytes 0 s ∷ xs) hcs)

  -- `verify_linear_combination` tells whether the combination of the multiples, with as many scalars
  -- as points, is the claimed multiple, modulo the group order.
  pub verify_linear_combination_lem :
      (k j : ℕ) (ks : List ℕ) (ss : List (List ℕ))
      → length (j ∷ ks) ≡ length ss
      → Ensures R
          (λ r. r ≡ (dot (j ∷ ks) (values ss) % q == k % q))
          (verify_linear_combination bn calloc ec true
            (some (encoded k))
            (some (each encoded (j ∷ ks)))
            (some ss)
            true)
  unfolding verify_linear_combination
  verify_linear_combination_lem k j ks ss e =
      call_rule R out_of_memory bn.ctx_new law.ctx_new_lem λ _ _.
        call_rule R out_of_memory ec.point_new group.point_new_lem λ _ _.
          bind_rule R (read_point_lem k) λ p hp. call_rule R out_of_memory calloc calloc_lem λ _ _.
            bind_rule R (read_points_lem (j ∷ ks)) λ ps hps.
              call_rule R out_of_memory calloc calloc_lem λ _ _.
                bind_rule R (read_scalars_lem ss) λ cs hcs.
                  call_rule R out_of_memory bn.get law.get_lem λ _ _.
                    call_rule R out_of_memory ec.point_new group.point_new_lem λ _ _.
                      rw (hps, hcs)
                        (call_rule R unknown_error (ec.points_mul (each point (j ∷ ks)) (values ss))
                          (λ w.
                            group.points_mul_lem (j ∷ ks) (values ss) w
                              (e ∙ sym (length-each (from_bytes 0) ss)))
                          λ t ht.
                            rw (ht, hp)
                              (try_rule R out_of_memory
                                (ec.cmp (point (dot (j ∷ ks) (values ss))) (point k))
                                (group.cmp_lem (dot (j ∷ ks) (values ss)) k)))
