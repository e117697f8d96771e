-- ===== src/Paillier/Keys/Rounds.antt =====
-- The rounds of the key generation, and what they end with.
use Prim.Native.Nat.{◌∣◌}
use native.Mathlib.Nat.{eq-one_of_dvd-one}
use audit_mpc_lib.Common.{
  ℕ, zero, suc, ◌+◌, ◌-◌, ◌*◌, ◌/◌, ◌%◌, ◌<◌, ◌≤◌, ◌≡◌, ◌≢◌, refl, sym, ◌∙◌, subst, ◌⊎◌, inl, inr,
  Bool, true, false, not, ◌==◌, ==_iff, if◌then◌else◌, Bool-cases, Option, none, some, Result, ok,
  Action, pure, try, ◌>>=◌, Documents, Documents-origin, Outcome, Yields, Yields-pure, Yields-bind,
  Yields-call, Yields-weaken, Yields-fail, arith,
}
use audit_mpc_lib.Bignum.{Bignum, Documented}
use audit_mpc_lib.Bignum.Modexp.{Modexp, ModexpDocumented}
use audit_mpc_lib.Bignum.Integers.{Integers, IntegersDocumented, IsPrime}
use audit_mpc_lib.Paillier.Coprime.{Coprime}
use audit_mpc_lib.Paillier.Cipher.{PaillierStatus, spinning, unset}
use audit_mpc_lib.Paillier.Keys.{Round, key_round, goes_on, key_loop}

-- The two primes of a round, and the numbers that belong to them.
pub record Fresh (r : Round) : Type 0 where
  pub p_prime : IsPrime r.p
  pub q_prime : IsPrime r.q
  pub differ : r.p ≢ r.q
  pub product : r.n ≡ r.p * r.q
  pub totient : r.lamda ≡ (r.p - 1) * (r.q - 1)

-- Any two primes that the library draws are of one length, and go with a good lamda.
abbrev pub Suitable : {W : Type 0} → Modexp W → Integers W → ℕ → Type 0
Suitable {W} mx zn key_len =
    (v w : W) (p q : ℕ)
    → (zn.prime_in_class (key_len / 2) 8 3 v).0 ≡ some p
    → (zn.prime_in_class (key_len / 2) 8 7 w).0 ≡ some q
    → (mx.num_bits p ≡ mx.num_bits q) × Coprime ((p - 1) * (q - 1)) (p * q)

-- The rounds have run out, of which one is enough where the primes are suitable.
abbrev pub Exhausts : {W : Type 0} → Modexp W → Integers W → ℕ → ℕ → PaillierStatus → Type 0
Exhausts mx zn fuel key_len e = (e ≡ spinning) × (0 < fuel → ¬ (Suitable mx zn key_len))

-- The primes of a round differ, and its numbers are theirs, or those of a round that was turned down.
pub record Drawn (S : Type 0) (r : Round) : Type 0 where
  pub differ : r.p ≢ r.q
  pub numbers : Fresh r ⊎ (¬ (Coprime r.lamda r.n))
  pub suited : S → Coprime r.lamda r.n

-- The end of the loop.
pub record Accepted (r : Round) : Type 0 where
  pub fresh : Fresh r
  pub coprime : Coprime r.lamda r.n

totient_lem : (p q : ℕ) → 1 < p → 1 < q → p * q - p - q + 1 ≡ (p - 1) * (q - 1)
totient_lem zero q h k = absurd (omega arith)
totient_lem (suc p) zero h k = absurd (omega arith)
totient_lem (suc p) (suc q) h k = grind arith

totient_room : (p q : ℕ) → 1 < p → 1 < q → p + q ≤ p * q
totient_room zero q h k = absurd (omega arith)
totient_room (suc p) zero h k = absurd (omega arith)
totient_room (suc p) (suc q) h k = grind arith

module _ {W R : Type 0} (given : R) (bn : Bignum W) (law : Documented R bn) (mx : Modexp W)
    (mlaw : ModexpDocumented R mx bn.bn2bin) (zn : Integers W)
    (zlaw : IntegersDocumented R zn mx) where
  key_round_lem :
      (Q : PaillierStatus → Type 0) (key_len n lamda : ℕ)
      → ¬ (Coprime lamda n)
      → Yields Q (Drawn (Suitable mx zn key_len)) (key_round bn mx zn key_len 3 7 8 n lamda)
  unfolding key_round
  key_round_lem Q key_len n lamda stale =
      Yields-call Q given unset (zn.prime_in_class (key_len / 2) 8 3)
        (Documents-origin (¬ R) (λ p. IsPrime p × (p % 8 ≡ 3)) (zn.prime_in_class (key_len / 2) 8 3)
          (zlaw.prime_three_lem (key_len / 2)))
        λ p (hp, (v, ep)).
          Yields-call Q given unset (zn.prime_in_class (key_len / 2) 8 7)
            (Documents-origin (¬ R) (λ p. IsPrime p × (p % 8 ≡ 7))
              (zn.prime_in_class (key_len / 2) 8 7) (zlaw.prime_seven_lem (key_len / 2)))
            λ q (hq, (w, eq)).
              measured p q (not (mx.num_bits p == mx.num_bits q)) hp.0 hq.0
                (λ e. different p q hp.1 hq.1 e)
                λ suitable. let (same, c) = suitable v w p q ep eq in (equal p q same, c)
    where
      different : (p q : ℕ) → p % 8 ≡ 3 → q % 8 ≡ 7 → p ≢ q
      different p q h k e = absurd (omega (arith, e))

      equal :
          (p q : ℕ) → mx.num_bits p ≡ mx.num_bits q → not (mx.num_bits p == mx.num_bits q) ≡ false
      equal p q e = rw ((==_iff (mx.num_bits p) (mx.num_bits q)).1 e)

      measured :
          (p q : ℕ) (longer : Bool)
          → IsPrime p
          → IsPrime q
          → p ≢ q
          → (Suitable mx zn key_len → (longer ≡ false) × Coprime ((p - 1) * (q - 1)) (p * q))
          → Yields Q (Drawn (Suitable mx zn key_len)) (
              if longer
              then pure (record { p = p; q = q; n = n; lamda = lamda })
              else (try unset (mx.mul p q) >>= λ n. try unset (mx.sub n p) >>= λ l.
                  try unset (mx.sub l q) >>= λ l. try unset (zn.add_word l 1) >>= λ l.
                  pure (record { p = p; q = q; n = n; lamda = l })))
      measured p q true hp hq h suits =
          Yields-pure Q (record { p = p; q = q; n = n; lamda = lamda })
            (record {
              differ = h;
              numbers = inr stale;
              suited = λ s. let e : true ≡ false = (suits s).0 in cc;
            })
      measured p q false hp hq h suits =
          let room : p + q ≤ p * q = totient_room p q hp.big hq.big in
          Yields-call Q given unset (mx.mul p q) (mlaw.mul_lem p q) λ n' e. rw e (
            Yields-call Q given unset (mx.sub (p * q) p)
              (λ w. mlaw.sub_lem (p * q) p w (omega arith))
              λ l f. rw f (
                Yields-call Q given unset (mx.sub (p * q - p) q)
                  (λ w. mlaw.sub_lem (p * q - p) q w (omega arith))
                  λ l' g. rw g (
                    Yields-call Q given unset (zn.add_word (p * q - p - q) 1)
                      (zlaw.add_word_lem (p * q - p - q) 1)
                      λ l'' k.
                        Yields-pure Q (record { p = p; q = q; n = p * q; lamda = l'' })
                          (record {
                            differ = h;
                            numbers = inl (record {
                              p_prime = hp;
                              q_prime = hq;
                              differ = h;
                              product = refl;
                              totient = k ∙ totient_lem p q hp.big hq.big;
                            });
                            suited = λ s.
                                subst (λ t. Coprime t (p * q))
                                  (sym (k ∙ totient_lem p q hp.big hq.big)) (suits s).1;
                          }))))

  -- The condition asks exactly for another round where lamda and n have a divisor in common.
  goes_on_lem :
      (Q : PaillierStatus → Type 0) (r : Round)
      → r.p ≢ r.q
      → Yields Q
          (λ more.
            ((more ≡ true) × (¬ (Coprime r.lamda r.n))) ⊎ ((more ≡ false) × Coprime r.lamda r.n))
          (goes_on bn mx zn r)
  unfolding goes_on
  goes_on_lem Q r differ = record {
    run = λ w.
        tested w (mx.gcd r.lamda r.n w).0 (r.p == r.q) (λ e. differ ((==_iff r.p r.q).0 e))
          (mlaw.gcd_lem r.lamda r.n w) (zlaw.gcd_dvd_lem r.lamda r.n w);
  }
    where
      Answer : Bool → Type 0
      Answer more =
          ((more ≡ true) × (¬ (Coprime r.lamda r.n))) ⊎ ((more ≡ false) × Coprime r.lamda r.n)

      tested :
          (w : W) (g : Option ℕ) (equal : Bool)
          → ¬ (equal ≡ true)
          → Documents (¬ R) (λ g. (d : ℕ) → d ∣ r.lamda → d ∣ r.n → d ∣ g) g
          → Documents (¬ R) (λ g. (g ∣ r.lamda) × (g ∣ r.n)) g
          → Outcome Q
              (λ more.
                ((more ≡ true) × (¬ (Coprime r.lamda r.n)))
                ⊎ ((more ≡ false) × Coprime r.lamda r.n))
              (if equal then (ok true, w) else (elim g as (λ _. Result PaillierStatus Bool × W) [
                | none ↦ (ok true, (mx.gcd r.lamda r.n w).1)
                | some d ↦ (ok (not (d == 1)), (mx.gcd r.lamda r.n w).1)
              ])).0
      tested w g true h a b = absurd (h refl)
      tested w none false h a b = absurd (a given)
      tested w (some g) false h a b = elim (Bool-cases (g == 1)) [
        | inl one ↦ rw one (
            inr (
              refl,
              λ d x y. eq-one_of_dvd-one (subst (λ k. d ∣ k) ((==_iff g 1).0 one) (a d x y)),
            ))
        | inr other ↦ rw other (
            inl
              (refl, λ c. let e : true ≡ false = sym ((==_iff g 1).1 (c g b.0 b.1)) ∙ other in cc))
      ]

  pub key_loop_lem :
      (fuel key_len n lamda : ℕ)
      → ¬ (Coprime lamda n)
      → Yields (Exhausts mx zn fuel key_len) Accepted (key_loop bn mx zn fuel key_len 3 7 8 n lamda)
  unfolding key_loop
  key_loop_lem zero key_len n lamda stale =
      Yields-fail (Exhausts mx zn 0 key_len) spinning (refl, λ pos. absurd (omega arith))
  key_loop_lem (suc fuel) key_len n lamda stale =
      Yields-bind (Exhausts mx zn (suc fuel) key_len)
        (key_round_lem (Exhausts mx zn (suc fuel) key_len) key_len n lamda stale)
        λ r d.
          Yields-bind (Exhausts mx zn (suc fuel) key_len)
            (goes_on_lem (Exhausts mx zn (suc fuel) key_len) r d.differ)
            (continued r d (key_loop_lem fuel key_len r.n r.lamda))
    where
      continued :
          (r : Round)
          → Drawn (Suitable mx zn key_len) r
          → (¬ (Coprime r.lamda r.n)
              → Yields
                  (Exhausts mx zn fuel key_len)
                  Accepted
                  (key_loop bn mx zn fuel key_len 3 7 8 r.n r.lamda))
          → (more : Bool)
          → (((more ≡ true) × (¬ (Coprime r.lamda r.n))) ⊎ ((more ≡ false) × Coprime r.lamda r.n))
          → Yields
              (Exhausts mx zn (suc fuel) key_len)
              Accepted
              (elim more as (λ _. Action W PaillierStatus Round) [
                | true ↦ key_loop bn mx zn fuel key_len 3 7 8 r.n r.lamda
                | false ↦ pure r
              ])
      continued r d again true (inl (e, bad)) =
          Yields-weaken (λ a h. h) (λ e x. (x.0, λ pos s. bad (d.suited s))) (again bad)
      continued r d again true (inr (e, c)) = cc
      continued r d again false (inl (e, bad)) = cc
      continued r d again false (inr (e, c)) =
          Yields-pure (Exhausts mx zn (suc fuel) key_len) r
            (record { fresh = taken d.numbers c; coprime = c })
        where
          taken : (Fresh r ⊎ (¬ (Coprime r.lamda r.n))) → Coprime r.lamda r.n → Fresh r
          taken (inl f) c = f
          taken (inr bad) c = absurd (bad c)
