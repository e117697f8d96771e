-- ===== src/Paillier/CoprimeProof/Draws.antt =====
-- What a seed draws: the numbers that deterministic_rand gives, up to the first coprime with n.
use audit_mpc_lib.Common.{
  ℕ, zero, suc, ◌<◌, ◌≡◌, refl, sym, ◌∙◌, subst, inl, inr, ◌⊎◌, Bool, true, false, Option, none,
  some, List, Result, ok, err, Action, Call, pure, Documents, Outcome, Yields, Yields-pure,
  Yields-fail, Yields-bind, Yields-weaken, Yields-Ensures, from_bytes, arith,
}
use audit_mpc_lib.Common.Sha.{Sha256}
use audit_mpc_lib.Bignum.{Bignum, Documented}
use audit_mpc_lib.Bignum.Modexp.{Modexp, ModexpDocumented}
use audit_mpc_lib.Bignum.Integers.{Integers, IntegersDocumented}
use audit_mpc_lib.Paillier.{CoprimeError, failed, is_coprime_fast}
use audit_mpc_lib.Paillier.Coprime.{Coprime, Answers, is_coprime_fast_lem}
use audit_mpc_lib.Paillier.Cipher.{PaillierStatus, spinning, unset}
use audit_mpc_lib.Paillier.CoprimeProof.{
  random_bytes, next_seed, deterministic_rand, unit_test, draw_unit,
}

module _ (sha512 : List ℕ → List ℕ) where
  -- The number that a seed gives.
  abbrev pub value : ℕ → List ℕ → ℕ
  value n_len seed = from_bytes 0 (random_bytes sha512 n_len seed)

  module _ (n n_len : ℕ) where
    -- From the seed `s` the number `x` is drawn within the fuel, and the seed `s'` is left.
    abbrev pub Draws : ℕ → List ℕ → ℕ → List ℕ → Type 0
    Draws zero s x s' = ⊥
    Draws (suc fuel) s x s' =
        (Coprime (value n_len s) n × (x ≡ value n_len s) × (s' ≡ next_seed sha512 n_len s))
        ⊎ ((¬ (Coprime (value n_len s) n)) × Draws fuel (next_seed sha512 n_len s) x s')

    -- The rounds have run out, of which one is enough where every number is coprime with n.
    abbrev pub Tires : ℕ → PaillierStatus → Type 0
    Tires fuel e = (e ≡ spinning) × (0 < fuel → ¬ ((s : List ℕ) → Coprime (value n_len s) n))

module _ {W R : Type 0} (given : R) (bn : Bignum W) (law : Documented R bn) (mx : Modexp W)
    (mlaw : ModexpDocumented R mx bn.bn2bin) (zn : Integers W) (zlaw : IntegersDocumented R zn mx)
    (sha : Sha256) (sha512 : List ℕ → List ℕ) (malloc : Call W (Unit {0}))
    (malloc_lem : (w : W) → Documents (¬ R) (λ _. Unit {0}) (malloc w).0) where
  deterministic_rand_lem :
      (Q : PaillierStatus → Type 0) (seed : List ℕ) (n_len x : ℕ)
      → Yields Q
          (λ r. (r.0 ≡ value sha512 n_len seed) × (r.1 ≡ next_seed sha512 n_len seed))
          (deterministic_rand bn mx zn sha sha512 malloc seed n_len x)
  unfolding deterministic_rand
  deterministic_rand_lem Q seed n_len x = record {
    run = λ w. allocated (malloc w).0 (malloc w).1 (malloc_lem w);
  }
    where
      P : ℕ × List ℕ → Type 0
      P r = (r.0 ≡ value sha512 n_len seed) × (r.1 ≡ next_seed sha512 n_len seed)

      read :
          (o : Option ℕ) (w : W)
          → Documents (¬ R) (λ r. r ≡ value sha512 n_len seed) o
          → Outcome Q
              (λ r. (r.0 ≡ value sha512 n_len seed) × (r.1 ≡ next_seed sha512 n_len seed))
              (elim o as (λ _. Result PaillierStatus (ℕ × List ℕ) × W) [
                | none ↦ (ok (x, next_seed sha512 n_len seed), w)
                | some x' ↦ (ok (x', next_seed sha512 n_len seed), w)
              ]).0
      read none w d = absurd (d given)
      read (some r) w d = (d, refl)

      allocated :
          (o : Option (Unit {0})) (w : W)
          → Documents (¬ R) (λ _. Unit {0}) o
          → Outcome Q
              (λ r. (r.0 ≡ value sha512 n_len seed) × (r.1 ≡ next_seed sha512 n_len seed))
              (elim o as (λ _. Result PaillierStatus (ℕ × List ℕ) × W) [
                | none ↦ (ok (x, seed), w)
                | some _ ↦
                    let r = bn.bin2bn (random_bytes sha512 n_len seed) w in
                    elim r.0 [
                      | none ↦ (ok (x, next_seed sha512 n_len seed), r.1)
                      | some x' ↦ (ok (x', next_seed sha512 n_len seed), r.1)
                    ]
              ]).0
      allocated none w d = absurd (d given)
      allocated (some _) w d =
          read (bn.bin2bn (random_bytes sha512 n_len seed) w).0
            (bn.bin2bn (random_bytes sha512 n_len seed) w).1
            (law.bin2bn_lem (random_bytes sha512 n_len seed) w)

  unit_test_lem :
      (Q : PaillierStatus → Type 0) (a b : ℕ)
      → Yields Q (Answers (Coprime a b)) (unit_test bn mx zn sha sha512 malloc a b)
  unfolding unit_test
  unit_test_lem Q a b = record {
    run = λ w.
        tested (is_coprime_fast bn a b w).0 (is_coprime_fast bn a b w).1
          ((Yields-Ensures (λ _. ⊥) given (is_coprime_fast_lem R bn law a b)).run w);
  }
    where
      tested :
          (r : Result CoprimeError Bool) (w : W)
          → Outcome (λ _. ⊥) (Answers (Coprime a b)) r
          → Outcome Q
              (Answers (Coprime a b))
              (elim r as (λ _. Result PaillierStatus Bool × W) [
                | ok yes' ↦ (ok yes', w)
                | err e ↦ elim e [
                  | failed ↦ (err unset, w)
                  | CoprimeError.spinning ↦ (err PaillierStatus.spinning, w)
                ]
              ]).0
      tested (ok b) w h = h
      tested (err e) w h = absurd h

  module _ (n n_len : ℕ) where
    pub draw_unit-Draws :
        (fuel : ℕ) (s : List ℕ) (x : ℕ)
        → Yields
            (Tires sha512 n n_len fuel)
            (λ r. Draws sha512 n n_len fuel s r.0 r.1 × Coprime r.0 n)
            (draw_unit bn mx zn sha sha512 malloc fuel n n_len s x)
    unfolding draw_unit
    draw_unit-Draws zero s x =
        Yields-fail (Tires sha512 n n_len 0) spinning (refl, λ pos. absurd (omega arith))
    draw_unit-Draws (suc fuel) s x =
        Yields-bind (Tires sha512 n n_len (suc fuel))
          (deterministic_rand_lem (Tires sha512 n n_len (suc fuel)) s n_len x)
          λ r e.
            Yields-bind (Tires sha512 n n_len (suc fuel))
              (unit_test_lem (Tires sha512 n n_len (suc fuel)) r.0 n)
              (answered r.0 r.1 e.0 e.1 (draw_unit-Draws fuel r.1 r.0))
      where
        answered :
            (y : ℕ) (t : List ℕ)
            → y ≡ value sha512 n_len s
            → t ≡ next_seed sha512 n_len s
            → Yields
                (Tires sha512 n n_len fuel)
                (λ r. Draws sha512 n n_len fuel t r.0 r.1 × Coprime r.0 n)
                (draw_unit bn mx zn sha sha512 malloc fuel n n_len t y)
            → (b : Bool) → Answers (Coprime y n) b
            → Yields
                (Tires sha512 n n_len (suc fuel))
                (λ r. Draws sha512 n n_len (suc fuel) s r.0 r.1 × Coprime r.0 n)
                (elim b as (λ _. Action W PaillierStatus (ℕ × List ℕ)) [
                  | true ↦ pure (y, t)
                  | false ↦ draw_unit bn mx zn sha sha512 malloc fuel n n_len t y
                ])
        answered y t ey et rest true a =
            let c : Coprime y n = a.0 refl in
            Yields-pure (Tires sha512 n n_len (suc fuel)) (y, t)
              (inl (subst (λ k. Coprime k n) ey c, ey, et), c)
        answered y t ey et rest false a =
            let bad : ¬ (Coprime y n) = λ c. let e : false ≡ true = a.1 c in cc in
            let bad' : ¬ (Coprime (value sha512 n_len s) n) = subst (λ k. ¬ (Coprime k n)) ey bad in
            Yields-weaken
              (λ r h. (inr (bad', subst (λ k. Draws sha512 n n_len fuel k r.0 r.1) et h.0), h.1))
              (λ e h. (h.0, λ pos all. bad' (all s))) rest

    -- The same numbers are drawn from the same seed again.
    pub Draws-draw_unit :
        (fuel : ℕ) (s : List ℕ) (x x' : ℕ) (s' : List ℕ)
        → Draws sha512 n n_len fuel s x' s'
        → Yields
            (λ _. ⊥)
            (λ r. (r.0 ≡ x') × (r.1 ≡ s'))
            (draw_unit bn mx zn sha sha512 malloc fuel n n_len s x)
    unfolding draw_unit
    Draws-draw_unit zero s x x' s' d = absurd d
    Draws-draw_unit (suc fuel) s x x' s' d =
        Yields-bind (λ _. ⊥) (deterministic_rand_lem (λ _. ⊥) s n_len x)
          λ r e.
            Yields-bind (λ _. ⊥) (unit_test_lem (λ _. ⊥) r.0 n)
              (answered r.0 r.1 e.0 e.1 d (Draws-draw_unit fuel r.1 r.0 x' s'))
      where
        answered :
            (y : ℕ) (t : List ℕ)
            → y ≡ value sha512 n_len s
            → t ≡ next_seed sha512 n_len s
            → Draws sha512 n n_len (suc fuel) s x' s'
            → (Draws sha512 n n_len fuel t x' s'
                → Yields
                    (λ _. ⊥)
                    (λ r. (r.0 ≡ x') × (r.1 ≡ s'))
                    (draw_unit bn mx zn sha sha512 malloc fuel n n_len t y))
            → (b : Bool) → Answers (Coprime y n) b
            → Yields
                (λ _. ⊥)
                (λ r. (r.0 ≡ x') × (r.1 ≡ s'))
                (elim b as (λ _. Action W PaillierStatus (ℕ × List ℕ)) [
                  | true ↦ pure (y, t)
                  | false ↦ draw_unit bn mx zn sha sha512 malloc fuel n n_len t y
                ])
        answered y t ey et (inl (c, ex, es)) again true a =
            Yields-pure (λ _. ⊥) (y, t) (ey ∙ sym ex, et ∙ sym es)
        answered y t ey et (inl (c, ex, es)) again false a =
            let e : false ≡ true = a.1 (subst (λ k. Coprime k n) (sym ey) c) in cc
        answered y t ey et (inr (bad, d)) again true a =
            absurd (bad (subst (λ k. Coprime k n) ey (a.0 refl)))
        answered y t ey et (inr (bad, d)) again false a =
            again (subst (λ k. Draws sha512 n n_len fuel k x' s') (sym et) d)
