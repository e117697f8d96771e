-- ===== src/Pedersen/Commit/Agreement.antt =====
-- The owner's check of a commitment agrees with the way it is made.
use native.Mathlib.Nat.{mod-mod}
use audit_mpc_lib.Common.{
  ℕ, ◌+◌, ◌*◌, ◌%◌, ◌^◌, ◌<◌, ◌≡◌, refl, sym, ap, ◌∙◌, inl, inr, Option, none, some, List, ◌∷◌,
  length, ◌==◌, ==_iff, try, Documents, Ensures, Meets, Result, ok, bind_rule, call_rule, try_rule,
  DecidesBy, decided_rule, answer_rule, from_bytes, mul-cong, pow-add, pow-mul, pow-cong,
  pow-period,
}
use audit_mpc_lib.Bignum.{Bignum, Documented}
use audit_mpc_lib.Bignum.Modexp.{Modexp, ModexpDocumented, Fits}
use audit_mpc_lib.Pedersen.{
  PedersenStatus, unknown_error, invalid_commitment, out_of_memory, PedersenPublic, PedersenPrivate,
}
use audit_mpc_lib.Pedersen.Commit.{
  init_mont, create_commitment_internal, verify_commitment_internal, verify_commitment,
}

-- What the owner of a key knows: s is a power of t, and phi_n is a period of the powers of t.
pub record IsKeyPair (key : PedersenPrivate) : Type 0 where
  pub n_odd : key.public.n % 2 ≡ 1
  pub n_large : 1 < key.public.n
  pub phi_pos : 0 < key.phi_n
  pub s_lem : key.public.s ≡ key.public.t ^ key.lamda % key.public.n
  pub period : key.public.t ^ key.phi_n % key.public.n ≡ 1 % key.public.n
  pub mont_fits : Fits key.public.mont key.public.n

-- The exponent of the owner stands for the same power.
pub exponent_lem :
    (n s t lamda phi x r : ℕ)
    → s ≡ t ^ lamda % n
    → t ^ phi % n ≡ 1 % n
    → t ^ ((lamda * x % phi + r) % phi) % n ≡ s ^ x * t ^ r % n
exponent_lem n s t lamda phi x r hs hp =
    pow-period n t phi (lamda * x % phi + r) hp
    ∙ ap (λ k. k % n) (pow-add t (lamda * x % phi) r)
    ∙ mul-cong n (t ^ (lamda * x % phi)) (s ^ x) (t ^ r) (t ^ r)
        (pow-period n t phi (lamda * x) hp
          ∙ ap (λ k. k % n) (pow-mul t lamda x)
          ∙ pow-cong n (t ^ lamda) s x (sym (ap (λ k. k % n) hs ∙ mod-mod (t ^ lamda) n)))
        refl

module _ {W : Type 0} (R : Type 0) (bn : Bignum W) (law : Documented R bn) (mx : Modexp W)
    (mlaw : ModexpDocumented R mx bn.bn2bin) where
  set-Fits : (n : ℕ) (m : Option ℕ) → Documents (Unit {0}) (λ r. r ≡ n) m → Fits m n
  set-Fits n none h = inl refl
  set-Fits n (some r) h = inr (ap (λ k. some k) h)

  made-Fits :
      (E : Type 0) (n : ℕ) (made : Option (Unit {0})) (w : W)
      → Meets R
          (λ m. Fits m n)
          (elim made as (λ _. Result E (Option ℕ) × W) [
            | none ↦ (ok none, w)
            | some u ↦ (ok (mx.mont_set n w).0, (mx.mont_set n w).1)
          ]).0
  made-Fits E n none w = inl refl
  made-Fits E n (some u) w = set-Fits n (mx.mont_set n w).0 (mlaw.mont_set_lem n w)

  pub mont_rule :
      {E : Type 0} (key : PedersenPublic)
      → Fits key.mont key.n
      → Ensures {W = W} {E = E} R (λ m. Fits m key.n) (init_mont mx key)
  unfolding init_mont
  mont_rule key (inr here) = record { run = λ w. rw here (inr refl) }
  mont_rule key (inl missing) = record {
    run = λ w. rw missing (made-Fits _ key.n (mx.mont_new w).0 (mx.mont_new w).1);
  }

  pub create_commitment_internal_lem :
      (key : PedersenPublic) (x r : ℕ)
      → key.n % 2 ≡ 1
      → Fits key.mont key.n
      → Ensures R
          (λ c. c ≡ key.s ^ x * key.t ^ r % key.n)
          (create_commitment_internal bn mx key x r)
  unfolding create_commitment_internal
  create_commitment_internal_lem key x r odd fits =
      call_rule R out_of_memory bn.get law.get_lem λ _ _. bind_rule R (mont_rule key fits) λ m hm.
        try_rule R unknown_error (mx.mod_exp2_mont key.s x key.t r key.n m)
          (λ w. mlaw.mod_exp2_mont_lem key.s x key.t r key.n m w odd hm)

  pub read_rule :
      (s : List ℕ)
      → Ensures {W = W} {E = PedersenStatus} R
          (λ n. n ≡ from_bytes 0 s)
          (try out_of_memory (bn.bin2bn s))
  read_rule s = try_rule R out_of_memory (bn.bin2bn s) (law.bin2bn_lem s)

  -- What the owner's check decides on the numbers.
  pub verify_internal_lem :
      (key : PedersenPrivate) (x r c : ℕ)
      → IsKeyPair key
      → DecidesBy R invalid_commitment
          (key.public.s ^ x * key.public.t ^ r % key.public.n == c)
          (verify_commitment_internal bn mx key x r c)
  unfolding verify_commitment_internal
  verify_internal_lem key x r c pair =
      let exponent = (key.lamda * x % key.phi_n + r) % key.phi_n in
      rw
        (← exponent_lem key.public.n key.public.s key.public.t key.lamda key.phi_n x r pair.s_lem
          pair.period)
        (decided_rule R invalid_commitment _ (try_rule R out_of_memory bn.get law.get_lem) λ _ _.
          decided_rule R invalid_commitment _ (mont_rule key.public pair.mont_fits) λ m fits.
            decided_rule R invalid_commitment _
              (try_rule R unknown_error (bn.mod_mul key.lamda x key.phi_n)
                (λ w. law.mod_mul_lem key.lamda x key.phi_n w pair.phi_pos))
              λ scaled hs. rw hs (
                decided_rule R invalid_commitment _
                  (try_rule R unknown_error (bn.mod_add (key.lamda * x % key.phi_n) r key.phi_n)
                    (λ w. law.mod_add_lem (key.lamda * x % key.phi_n) r key.phi_n w pair.phi_pos))
                  λ e he. rw he (
                    decided_rule R invalid_commitment _
                      (try_rule R unknown_error
                        (mx.mod_exp_mont key.public.t exponent key.public.n m)
                        (λ w.
                          mlaw.mod_exp_mont_lem key.public.t exponent key.public.n m w pair.n_odd
                            fits))
                      λ v hv. rw hv (answer_rule R invalid_commitment _ _ refl))))

  -- For the owner of a key pair, with numbers of one byte or more and a commitment of the modulus'
  -- length: the check succeeds when the commitment is s^x * t^r modulo n, and otherwise answers that
  -- it is invalid; other errors occur only where memory runs out.
  pub verify_commitment_lem :
      (key : PedersenPrivate) (a b c : ℕ) (x r commitment : List ℕ)
      → IsKeyPair key
      → length (c ∷ commitment) ≡ mx.num_bytes key.public.n
      → DecidesBy R invalid_commitment
          (key.public.s ^ from_bytes 0 (a ∷ x) * key.public.t ^ from_bytes 0 (b ∷ r) % key.public.n
            == from_bytes 0 (c ∷ commitment))
          (verify_commitment bn mx (some key) (some (a ∷ x)) (some (b ∷ r)) (some (c ∷ commitment)))
  unfolding verify_commitment
  verify_commitment_lem key a b c x r commitment pair len = rw ((==_iff _ _).1 len) (
      decided_rule R invalid_commitment _ (try_rule R out_of_memory bn.ctx_new law.ctx_new_lem)
        λ _ _.
          decided_rule R invalid_commitment _ (try_rule R out_of_memory bn.get law.get_lem) λ _ _.
            decided_rule R invalid_commitment _ (try_rule R out_of_memory bn.get law.get_lem) λ _ _.
              decided_rule R invalid_commitment _ (try_rule R out_of_memory bn.get law.get_lem)
                λ _ _. decided_rule R invalid_commitment _ (read_rule (a ∷ x)) λ nx hx. rw hx (
                  decided_rule R invalid_commitment _ (read_rule (b ∷ r)) λ nr hr. rw hr (
                    decided_rule R invalid_commitment _ (read_rule (c ∷ commitment)) λ nc hc.
                      rw hc (
                        verify_internal_lem key (from_bytes 0 (a ∷ x)) (from_bytes 0 (b ∷ r))
                          (from_bytes 0 (c ∷ commitment)) pair))))
