-- ===== src/Paillier/Keys/Generated.antt =====
-- The keys that are generated are good.
use native.Mathlib.Nat.{dvd-zero, mod-eq_of_lt}
use audit_mpc_lib.Common.{
  ℕ, ◌*◌, ◌%◌, ◌<◌, ◌≤◌, ◌≡◌, refl, sym, ◌∙◌, subst, true, ge→ltb, Option, none, some, Action, Call,
  pure, try, ◌>>=◌, Documents, Yields, Yields-pure, Yields-bind, Yields-call, Yields-passes, arith,
  ◌^◌,
}
use audit_mpc_lib.Bignum.{Bignum, Documented}
use audit_mpc_lib.Bignum.Modexp.{Modexp, ModexpDocumented}
use audit_mpc_lib.Bignum.Integers.{Integers, IntegersDocumented}
use audit_mpc_lib.Pedersen.{min_key_len_in_bits}
use audit_mpc_lib.Paillier.Coprime.{Coprime}
use audit_mpc_lib.Paillier.Units.{Invertible-found, Invertible, Coprime_iff-Invertible}
use audit_mpc_lib.Paillier.Fermat.{product_period}
use audit_mpc_lib.Paillier.Cipher.{
  PaillierStatus, keylen_too_short, out_of_memory, unset, PublicKey, PrivateKey,
}
use audit_mpc_lib.Paillier.Cipher.Rules.{settle_rule}
use audit_mpc_lib.Paillier.Cipher.Honest.{IsPrivateKey}
use audit_mpc_lib.Paillier.Keys.{Round, generate_key_pair}
use audit_mpc_lib.Paillier.Keys.Rounds.{Accepted, Exhausts, key_loop_lem}

-- A pair of keys for the same n, of which the private one is good.
pub record IsPair (o : Option (PublicKey × PrivateKey)) : Type 0 where
  pub public : PublicKey
  pub private : PrivateKey
  pub written : o ≡ some (public, private)
  pub same : public ≡ private.public
  pub good : IsPrivateKey private

module _ {W R : Type 0} (given : R) (bn : Bignum W) (law : Documented R bn) (mx : Modexp W)
    (mlaw : ModexpDocumented R mx bn.bn2bin) (zn : Integers W)
    (zlaw : IntegersDocumented R zn mx) where
  -- The numbers that the loop ends with make a good key.
  Accepted-IsPrivateKey :
      (r : Round) (n2 mu : ℕ)
      → Accepted r
      → n2 ≡ r.n * r.n
      → (r.lamda * mu % r.n ≡ 1 % r.n)
      → IsPrivateKey (record {
        public = record { n = r.n; n2 = n2 };
        p = r.p;
        q = r.q;
        lamda = r.lamda;
        mu = mu;
      })
  Accepted-IsPrivateKey r n2 mu a e inv =
      let f = a.fresh in
      let big : 1 < r.n = rw f.product (grind (arith, f.p_prime.big, f.q_prime.big)) in
      record {
        public = record { big = big; square = e };
        period = λ k u.
            subst (λ n. k ^ r.lamda % n ≡ 1) (sym f.product)
              (subst (λ l. k ^ l % (r.p * r.q) ≡ 1) (sym f.totient)
                (product_period r.p r.q k f.p_prime f.q_prime f.differ
                  (subst (λ n. Invertible n k) f.product u)));
        inverse = inv ∙ mod-eq_of_lt big;
      }

  inverse_found :
      (a m : ℕ) (w : W)
      → 0 < m
      → Coprime a m
      → Documents (¬ R) (λ r. (r < m) × (a * r % m ≡ 1 % m)) (bn.mod_inverse a m w).0
  inverse_found a m w pos c =
      Invertible-found R _ m a (bn.mod_inverse a m w).0 ((Coprime_iff-Invertible m a).0 c)
        (law.mod_inverse_lem a m w pos)

  -- For every length that is long enough, a pair of keys for one n is returned, the private one of
  -- which is good; or the rounds have run out, of which one is enough where the primes are suitable.
  pub generate_key_pair-IsPair :
      (malloc : Call W (Unit {0})) (fuel key_len : ℕ)
      → ((w : W) → Documents (¬ R) (λ _. Unit {0}) (malloc w).0)
      → min_key_len_in_bits ≤ key_len
      → Yields
          (Exhausts mx zn fuel key_len)
          IsPair
          (generate_key_pair bn mx zn malloc fuel key_len true true)
  unfolding generate_key_pair
  generate_key_pair-IsPair malloc fuel key_len malloc_lem long =
      Yields-passes Q keylen_too_short (ge→ltb key_len min_key_len_in_bits long) (
        Yields-call Q given out_of_memory zn.ctx_secure_new zlaw.ctx_secure_new_lem λ _ _.
          settle_rule zn Q none (λ e q. cc q.0)
            (gets λ _ _. gets λ _ _. gets λ _ _. gets λ _ _. gets λ _ _. gets λ _ _. gets λ _ _.
              gets λ _ _. gets λ _ _. gets λ _ _.
                Yields-call Q given unset (bn.set_word 3) (law.set_word_lem 3) λ three e3. rw e3 (
                  Yields-call Q given unset (bn.set_word 7) (law.set_word_lem 7) λ seven e7. rw e7 (
                    Yields-call Q given unset (bn.set_word 8) (law.set_word_lem 8) λ eight e8.
                      rw e8 (
                        Yields-bind Q
                          (key_loop_lem given bn law mx mlaw zn zlaw fuel key_len 0 0 stale)
                          finish)))))
    where
      Q : PaillierStatus → Type 0
      Q = Exhausts mx zn fuel key_len

      stale : ¬ (Coprime 0 0)
      stale c = let e : ◌≡◌ {A = ℕ} 2 1 = c 2 (dvd-zero 2) (dvd-zero 2) in absurd (omega (arith, e))

      gets :
          {B : Type 0} {P : B → Type 0} {f : Unit {0} → Action W PaillierStatus B}
          → ((a : Unit {0}) → Unit {0} → Yields (Exhausts mx zn fuel key_len) P (f a))
          → Yields (Exhausts mx zn fuel key_len) P (try unset bn.get >>= f)
      gets h = Yields-call (Exhausts mx zn fuel key_len) given unset bn.get law.get_lem h

      finish :
          (r : Round)
          → Accepted r
          → Yields (Exhausts mx zn fuel key_len) IsPair (
              try unset (zn.sqr r.n) >>= λ n2. try unset (bn.mod_inverse r.lamda r.n) >>= λ mu.
              try out_of_memory malloc >>= λ _. try out_of_memory malloc >>= λ _.
              try out_of_memory (zn.dup r.n) >>= λ pub_n.
              try out_of_memory (zn.dup n2) >>= λ pub_n2. pure (
                some (
                  record { n = pub_n; n2 = pub_n2 },
                  record {
                    public = record { n = r.n; n2 = n2 };
                    p = r.p;
                    q = r.q;
                    lamda = r.lamda;
                    mu = mu;
                  },
                )))
      finish r a =
          let f = a.fresh in
          let pos : 0 < r.n = rw f.product (grind (arith, f.p_prime.big, f.q_prime.big)) in
          Yields-call Q given unset (zn.sqr r.n) (zlaw.sqr_lem r.n) λ n2 e2.
            Yields-call Q given unset (bn.mod_inverse r.lamda r.n)
              (λ w. inverse_found r.lamda r.n w pos a.coprime)
              λ mu inv. Yields-call Q given out_of_memory malloc malloc_lem λ _ _.
                Yields-call Q given out_of_memory malloc malloc_lem λ _ _.
                  Yields-call Q given out_of_memory (zn.dup r.n) (zlaw.dup_lem r.n) λ pn en.
                    Yields-call Q given out_of_memory (zn.dup n2) (zlaw.dup_lem n2) λ pn2 en2.
                      Yields-pure Q
                        (some (
                          record { n = pn; n2 = pn2 },
                          record {
                            public = record { n = r.n; n2 = n2 };
                            p = r.p;
                            q = r.q;
                            lamda = r.lamda;
                            mu = mu;
                          },
                        ))
                        (record {
                          public = record { n = pn; n2 = pn2 };
                          private = record {
                            public = record { n = r.n; n2 = n2 };
                            p = r.p;
                            q = r.q;
                            lamda = r.lamda;
                            mu = mu;
                          };
                          written = refl;
                          same = λ i. record { n = en i; n2 = en2 i };
                          good = Accepted-IsPrivateKey r n2 mu a e2 inv.1;
                        })
