-- ===== src/Pedersen/Keys/Generated.antt =====
-- What a generated key pair is.
use Prim.Native.Nat.{◌∣◌}
use native.Mathlib.Nat.{eq-one_of_dvd-one}
use audit_mpc_lib.Common.{
  ℕ, zero, suc, ◌+◌, ◌-◌, ◌*◌, ◌/◌, ◌%◌, ◌^◌, ◌≤◌, ◌<◌, ◌≡◌, refl, ap, true, false, Bool-cases, inl,
  inr, Option, none, some, ge→ltb, ◌==◌, ==_iff, arith, err, Action, Call, Documents, Ensures,
  pure_rule, bind_rule, try_rule, call_rule, passes_rule, ◌>>=◌, ◌⊎◌, subst, pure, Result, ok,
  Meets, Outcome, Yields, Yields-pure, Yields-fail, Yields-bind,
}
use audit_mpc_lib.Bignum.{Bignum, Documented}
use audit_mpc_lib.Bignum.Modexp.{Modexp, ModexpDocumented}
use audit_mpc_lib.Paillier.Coprime.{Coprime}
use audit_mpc_lib.Pedersen.{unknown_error, min_key_len_in_bits, PedersenPublic, PedersenPrivate}
use audit_mpc_lib.Pedersen.Codec.{attempt}
use audit_mpc_lib.Pedersen.Keys.{
  KeyStatus, pedersen, spinning, calls, draw_coprime, gets, generate_key_pair,
}
use audit_mpc_lib.Pedersen.Keys.Phi.{phi_steps}

-- A modulus of two factors, its phi, an exponent below it, a square that is coprime, and its power.
pub record IsGenerated (public : PedersenPublic) (key : PedersenPrivate) : Type 0 where
  pub p : ℕ
  pub q : ℕ
  pub r : ℕ
  pub n_lem : key.public.n ≡ p * q
  pub phi_lem : key.phi_n ≡ (p - 1) * (q - 1)
  pub lamda_lt : key.lamda < key.phi_n
  pub r_coprime : Coprime r key.public.n
  pub t_lem : key.public.t ≡ r * r % key.public.n
  pub s_lem : key.public.s ≡ key.public.t ^ key.lamda % key.public.n
  pub public_lem : public ≡ key.public
  pub mont_lem : key.public.mont ≡ none

module _ {W : Type 0} (R : Type 0) (bn : Bignum W) (law : Documented R bn) (mx : Modexp W)
    (mlaw : ModexpDocumented R mx bn.bn2bin) (malloc : Call W (Unit {0}))
    (malloc_lem : (w : W) → Documents (¬ R) (λ _. Unit {0}) (malloc w).0) where
  gets_rule : (count : ℕ) → Ensures R (λ _. Unit {0}) (gets bn mx malloc count)
  unfolding gets
  gets_rule zero = pure_rule R tt tt
  gets_rule (suc count) = call_rule R _ bn.get law.get_lem λ _ _. gets_rule count

  -- The draw of a number that is coprime to the modulus ends within the fuel.
  abbrev pub Draws : ℕ → Type 0
  Draws fuel = (n : ℕ) (w : W) → 0 < n → (draw_coprime bn mx malloc fuel n w).0 ≡ err spinning → ¬ R

  -- Unless the fuel ends.
  abbrev Spins : KeyStatus → Type 0
  Spins e = (e ≡ spinning) ⊎ (¬ R)

  found_rule :
      (n r : ℕ) (tmp : Option ℕ) {again : Action W KeyStatus ℕ}
      → Documents (¬ R) (λ g. (d : ℕ) → d ∣ r → d ∣ n → d ∣ g) tmp
      → Yields Spins (λ k. Coprime k n) again
      → Yields Spins
          (λ k. Coprime k n)
          (elim tmp as (λ _. Action W KeyStatus ℕ) [
            | none ↦ again
            | some g ↦ elim (g == 1) as (λ _. Action W KeyStatus ℕ) [
              | true ↦ pure r
              | false ↦ again
            ]
          ])
  found_rule n r none out h = h
  found_rule n r (some g) common h = elim (Bool-cases (g == 1)) [
    | inl one ↦ rw one (
        Yields-pure Spins r
          (λ d x y. eq-one_of_dvd-one (subst (λ k. d ∣ k) ((==_iff g 1).0 one) (common d x y))))
    | inr other ↦ rw other h
  ]

  rand_rule :
      (n : ℕ) → 0 < n → Yields {W = W} Spins (λ _. Unit {0}) (calls unknown_error (bn.rand_range n))
  rand_rule n pos = record {
    run = λ w. drawn (bn.rand_range n w).0 (bn.rand_range n w).1 (law.rand_range_lem n w pos);
  }
    where
      drawn :
          (r : Option ℕ) (w : W)
          → Documents (¬ R) (λ k. k < n) r
          → Outcome Spins
              (λ _. Unit {0})
              (elim r as (λ _. Result KeyStatus ℕ × W) [
                | none ↦ (err (pedersen unknown_error), w)
                | some k ↦ (ok k, w)
              ]).0
      drawn none w out = inr out
      drawn (some k) w h = tt

  attempt_gcd :
      (r n : ℕ)
      → Yields {W = W} {E = KeyStatus} Spins
          (Documents (¬ R) (λ g. (d : ℕ) → d ∣ r → d ∣ n → d ∣ g))
          (attempt (mx.gcd r n))
  attempt_gcd r n = record { run = λ w. mlaw.gcd_lem r n w }

  draw_coprime_lem :
      (fuel n : ℕ) → 0 < n → Yields Spins (λ r. Coprime r n) (draw_coprime bn mx malloc fuel n)
  unfolding draw_coprime
  draw_coprime_lem zero n pos = Yields-fail Spins spinning (inl refl)
  draw_coprime_lem (suc fuel) n pos = Yields-bind Spins (rand_rule n pos) λ r _.
      Yields-bind Spins (attempt_gcd r n)
        λ tmp common. found_rule n r tmp common (draw_coprime_lem fuel n pos)

  drawn_rule :
      (fuel n : ℕ)
      → 0 < n
      → Draws fuel
      → Ensures R (λ r. Coprime r n) (draw_coprime bn mx malloc fuel n)
  drawn_rule fuel n pos draws = record {
    run = λ w.
        ends (draw_coprime bn mx malloc fuel n w).0 (draws n w pos)
          ((draw_coprime_lem fuel n pos).run w);
  }
    where
      ends :
          (r : Result KeyStatus ℕ)
          → (r ≡ err spinning → ¬ R)
          → Outcome Spins (λ k. Coprime k n) r
          → Meets R (λ k. Coprime k n) r
      ends (ok k) never h = h
      ends (err e) never (inl spins) = never (ap err spins)
      ends (err e) never (inr out) = out

  step :
      {A : Type 0} {Q : A → Type 0} {m : Action W KeyStatus ℕ} (k : ℕ → Action W KeyStatus A)
      (a : ℕ)
      → Ensures R (λ r. r ≡ a) m
      → Ensures R Q (k a)
      → Ensures R Q (m >>= k)
  step k a hm hk = bind_rule R hm λ r e. rw e hk

  -- The call returns, for a key of 256 bits or more, a modulus n of two factors p and q and the number
  -- (p - 1) * (q - 1), an exponent below it, the square of a number coprime to n and its power,
  -- and a copy of the public part; it fails only where memory or randomness runs out, or the draw of a
  -- coprime number does not end.
  pub generate_key_pair_lem :
      (fuel key_len : ℕ)
      → min_key_len_in_bits ≤ key_len
      → Draws fuel
      → Ensures R
          (λ pair. IsGenerated pair.0 pair.1)
          (generate_key_pair bn mx malloc fuel key_len true)
  unfolding generate_key_pair
  generate_key_pair_lem fuel key_len long draws =
      passes_rule R _ (ge→ltb key_len min_key_len_in_bits long) (
        call_rule R _ bn.ctx_new law.ctx_new_lem λ _ _. bind_rule R (gets_rule 9) λ _ _.
          call_rule R _ (mx.generate_prime (key_len / 2))
            (λ w. mlaw.generate_prime_lem (key_len / 2) w (omega arith))
            λ p hp.
              call_rule R _ (mx.generate_prime (key_len / 2))
                (λ w. mlaw.generate_prime_lem (key_len / 2) w (omega arith))
                λ q hq.
                  let (p_le, q_le, phi_eq, n_pos, phi_pos) = phi_steps p q hp hq in
                  let n = p * q in
                  let phi = n - p - q + 1 in
                  step _ n (try_rule R _ (mx.mul p q) (mlaw.mul_lem p q)) (
                    step _ (n - p) (try_rule R _ (mx.sub n p) (λ w. mlaw.sub_lem n p w p_le)) (
                      step _ (n - p - q)
                        (try_rule R _ (mx.sub (n - p) q) (λ w. mlaw.sub_lem (n - p) q w q_le))
                        (step _ phi
                          (try_rule R _ (mx.add (n - p - q) 1) (mlaw.add_lem (n - p - q) 1))
                          (call_rule R _ (bn.rand_range phi)
                            (λ w. law.rand_range_lem phi w (omega arith))
                            λ lamda hl. bind_rule R (drawn_rule fuel n n_pos draws) λ r coprime.
                              step _ (r * r % n)
                                (try_rule R _ (mx.mod_sqr r n) (λ w. mlaw.mod_sqr_lem r n w n_pos))
                                (step _ ((r * r % n) ^ lamda % n)
                                  (try_rule R _ (mx.mod_exp (r * r % n) lamda n)
                                    (λ w. mlaw.mod_exp_lem (r * r % n) lamda n w n_pos))
                                  (call_rule R _ malloc malloc_lem λ _ _.
                                    call_rule R _ malloc malloc_lem λ _ _.
                                      step _ n (try_rule R _ (bn.copy n) (law.copy_lem n)) (
                                        step _ _
                                          (try_rule R _ (bn.copy ((r * r % n) ^ lamda % n))
                                            (law.copy_lem _))
                                          (step _ (r * r % n)
                                            (try_rule R _ (bn.copy (r * r % n)) (law.copy_lem _))
                                            (pure_rule R _ (record {
                                              p = p;
                                              q = q;
                                              r = r;
                                              n_lem = refl;
                                              phi_lem = phi_eq;
                                              lamda_lt = hl;
                                              r_coprime = coprime;
                                              t_lem = refl;
                                              s_lem = refl;
                                              public_lem = refl;
                                              mont_lem = refl;
                                            })))))))))))
