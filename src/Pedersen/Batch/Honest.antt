-- ===== src/Pedersen/Batch/Honest.antt =====
-- A batch of commitments that were made with the key is accepted, whatever the random numbers are.
use native.Mathlib.Nat.{mod-mod, mod-eq_of_lt, pow-zero}
use audit_mpc_lib.Common.{
  ◌>>=◌, ℕ, ◌+◌, ◌*◌, ◌%◌, ◌^◌, ◌<◌, ◌≡◌, sym, ap, ◌∙◌, true, not, Option, some, List, [], ◌∷◌, All,
  arith, ==_iff, try, Action, Ensures, pure_rule, bind_rule, call_rule, try_rule, passes_rule,
  from_bytes, mul-cong, pow-add, pow-mul, pow-cong, pow-period,
}
use audit_mpc_lib.Bignum.{Bignum, Documented}
use audit_mpc_lib.Bignum.Modexp.{Modexp, ModexpDocumented, Fits}
use audit_mpc_lib.Pedersen.{unknown_error, out_of_memory, PedersenStatus, PedersenPrivate}
use audit_mpc_lib.Pedersen.Commit.Agreement.{IsKeyPair, exponent_lem, mont_rule}
use audit_mpc_lib.Pedersen.Batch.{
  Entry, all_there, all_sized, batch_step, batch_finish, internal_loop, verify_batch_internal,
  batch_loop, verify_batch_commitments,
}

-- One round keeps the product equal to the power of the sum.
round_lem :
    (n t e c total b gamma : ℕ)
    → b ≡ t ^ total % n
    → c % n ≡ t ^ e % n
    → b * (c ^ gamma % n) % n ≡ t ^ (total + e * gamma) % n
round_lem n t e c total b gamma hb hc =
    mul-cong n b (t ^ total) (c ^ gamma % n) (t ^ (e * gamma))
      (ap (λ k. k % n) hb ∙ mod-mod (t ^ total) n)
      (mod-mod (c ^ gamma) n
        ∙ pow-cong n c (t ^ e) gamma hc
        ∙ ap (λ k. k % n) (sym (pow-mul t e gamma)))
    ∙ ap (λ k. k % n) (sym (pow-add t total (e * gamma)))

start_lem : (n t : ℕ) → 1 < n → 1 ≡ t ^ 0 % n
start_lem n t h = sym (ap (λ k. k % n) (pow-zero t) ∙ mod-eq_of_lt h)

module _ {W : Type 0} (R : Type 0) (bn : Bignum W) (law : Documented R bn) (mx : Modexp W)
    (mlaw : ModexpDocumented R mx bn.bn2bin) (key : PedersenPrivate) (pair : IsKeyPair key) where
  -- The commitment of an entry is the one to its numbers.
  abbrev pub Honest : Entry → Type 0
  Honest (x, r, c) = c % key.public.n ≡ key.public.s ^ x * key.public.t ^ r % key.public.n

  -- The product is the power of the sum.
  abbrev Balanced : ℕ × ℕ → Type 0
  Balanced (t_exp, b) = b ≡ key.public.t ^ t_exp % key.public.n

  abbrev exponent : ℕ → ℕ → ℕ
  exponent x r = (key.lamda * x % key.phi_n + r) % key.phi_n

  Balanced-round :
      (gamma x r c t_exp b : ℕ)
      → Honest (x, r, c)
      → Balanced (t_exp, b)
      → Balanced (t_exp + exponent x r * gamma, b * (c ^ gamma % key.public.n) % key.public.n)
  Balanced-round gamma x r c t_exp b honest balanced =
      round_lem key.public.n key.public.t (exponent x r) c t_exp b gamma balanced (
        honest
        ∙ sym (
            exponent_lem key.public.n key.public.s key.public.t key.lamda key.phi_n x r pair.s_lem
              pair.period))

  -- A library call that computes what it says, and what comes after it.
  step :
      {B : Type 0} {Q : B → Type 0} (k : ℕ → Action W PedersenStatus B) (a : ℕ)
      {m : Action W PedersenStatus ℕ}
      → Ensures R (λ r. r ≡ a) m
      → Ensures R Q (k a)
      → Ensures R Q (m >>= k)
  step k a hm hk = bind_rule R hm λ r e. rw e hk

  batch_step_lem :
      (mont : Option ℕ) (gamma x r c t_exp b : ℕ)
      → Fits mont key.public.n
      → Honest (x, r, c)
      → Balanced (t_exp, b)
      → Ensures R Balanced (batch_step bn mx key mont gamma (x, r, c) (t_exp, b))
  unfolding batch_step
  batch_step_lem mont gamma x r c t_exp b fits honest balanced =
      let n = key.public.n in
      let scaled = key.lamda * x % key.phi_n in
      step _ scaled
        (try_rule R unknown_error (bn.mod_mul key.lamda x key.phi_n)
          (λ w. law.mod_mul_lem key.lamda x key.phi_n w pair.phi_pos))
        (step _ (exponent x r)
          (try_rule R unknown_error (bn.mod_add scaled r key.phi_n)
            (λ w. law.mod_add_lem scaled r key.phi_n w pair.phi_pos))
          (step _ (exponent x r * gamma)
            (try_rule R unknown_error (bn.mul_word (exponent x r) gamma)
              (law.mul_word_lem (exponent x r) gamma))
            (step _ (t_exp + exponent x r * gamma)
              (try_rule R unknown_error (mx.add t_exp (exponent x r * gamma))
                (mlaw.add_lem t_exp (exponent x r * gamma)))
              (step _ gamma (try_rule R unknown_error (bn.set_word gamma) (law.set_word_lem gamma))
                (step _ (c ^ gamma % n)
                  (try_rule R unknown_error (mx.mod_exp_mont c gamma n mont)
                    (λ w. mlaw.mod_exp_mont_lem c gamma n mont w pair.n_odd fits))
                  (step _ (b * (c ^ gamma % n) % n)
                    (try_rule R unknown_error (bn.mod_mul b (c ^ gamma % n) n)
                      (λ w. law.mod_mul_lem b (c ^ gamma % n) n w (omega (arith, pair.n_large))))
                    (pure_rule R _ (Balanced-round gamma x r c t_exp b honest balanced))))))))

  finish_lem :
      (mont : Option ℕ) (state : ℕ × ℕ)
      → Fits mont key.public.n
      → Balanced state
      → Ensures R (λ _. Unit {0}) (batch_finish bn mx key mont state)
  unfolding batch_finish
  finish_lem mont (t_exp, b) fits balanced =
      let n = key.public.n in
      step _ (t_exp % key.phi_n)
        (try_rule R unknown_error (bn.modulo t_exp key.phi_n)
          (λ w. law.modulo_lem t_exp key.phi_n w pair.phi_pos))
        (step _ (key.public.t ^ (t_exp % key.phi_n) % n)
          (try_rule R unknown_error (mx.mod_exp_mont key.public.t (t_exp % key.phi_n) n mont)
            (λ w. mlaw.mod_exp_mont_lem key.public.t (t_exp % key.phi_n) n mont w pair.n_odd fits))
          (rw
            ((==_iff _ _).1 (pow-period n key.public.t key.phi_n t_exp pair.period ∙ sym balanced))
            (pure_rule R tt tt)))

  rand_rule : Ensures R (λ r. r < 2 ^ 64) (try {W = W} unknown_error mx.rand64)
  rand_rule = try_rule R unknown_error mx.rand64 mlaw.rand64_lem

  internal_loop_lem :
      (mont : Option ℕ) (entries : List Entry) (state : ℕ × ℕ)
      → Fits mont key.public.n
      → All Honest entries
      → Balanced state
      → Ensures R Balanced (internal_loop bn mx key mont entries state)
  unfolding internal_loop
  internal_loop_lem mont [] state fits honest balanced = pure_rule R state balanced
  internal_loop_lem mont ((x, r, c) ∷ entries) (t_exp, b) fits (now, later) balanced =
      bind_rule R rand_rule λ gamma _.
        bind_rule R (batch_step_lem mont (gamma % 2 ^ 40) x r c t_exp b fits now balanced)
          λ state balanced'. internal_loop_lem mont entries state fits later balanced'

  -- A batch of one commitment or more to the numbers in it, all pointers given, is accepted; the check
  -- fails only where memory or randomness runs out.
  pub verify_batch_internal_lem :
      (d : Option ℕ × Option ℕ × Option ℕ) (ds : List (Option ℕ × Option ℕ × Option ℕ))
      (entries : List Entry)
      → all_there (d ∷ ds) ≡ some entries
      → All Honest entries
      → Ensures R (λ _. Unit {0}) (verify_batch_internal bn mx (some key) (some (d ∷ ds)) true)
  unfolding verify_batch_internal
  verify_batch_internal_lem d ds entries there honest =
      rw (there, verify_batch_internal)
        (call_rule R out_of_memory bn.get law.get_lem λ _ _.
          call_rule R out_of_memory bn.get law.get_lem λ _ _.
            call_rule R out_of_memory bn.get law.get_lem λ _ _.
              call_rule R out_of_memory bn.get law.get_lem λ _ _.
                bind_rule R (mont_rule R bn law mx mlaw key.public pair.mont_fits) λ mont fits.
                  bind_rule R
                    (internal_loop_lem mont entries (0, 1) fits honest (start_lem _ _ pair.n_large))
                    λ state balanced. finish_lem mont state fits balanced)

  -- What the bytes of an entry stand for.
  abbrev pub HonestBytes : List ℕ × List ℕ × List ℕ → Type 0
  HonestBytes (x, r, c) = Honest (from_bytes 0 x, from_bytes 0 r, from_bytes 0 c)

  read :
      (s : List ℕ) → Ensures {W = W} R (λ n. n ≡ from_bytes 0 s) (try unknown_error (bn.bin2bn s))
  read s = try_rule R unknown_error (bn.bin2bn s) (law.bin2bn_lem s)

  batch_loop_lem :
      (mont : Option ℕ) (entries : List (List ℕ × List ℕ × List ℕ)) (state : ℕ × ℕ)
      → Fits mont key.public.n
      → All HonestBytes entries
      → Balanced state
      → Ensures R Balanced (batch_loop bn mx key mont entries state)
  unfolding batch_loop
  batch_loop_lem mont [] state fits honest balanced = pure_rule R state balanced
  batch_loop_lem mont ((xs, rs, cs) ∷ entries) (t_exp, b) fits (now, later) balanced =
      let n = key.public.n in
      let x = from_bytes 0 xs in
      let r = from_bytes 0 rs in
      let c = from_bytes 0 cs in
      let scaled = key.lamda * x % key.phi_n in
      bind_rule R rand_rule λ gamma _. step _ x (read xs) (
        step _ r (read rs) (
          step _ scaled
            (try_rule R unknown_error (bn.mod_mul key.lamda x key.phi_n)
              (λ w. law.mod_mul_lem key.lamda x key.phi_n w pair.phi_pos))
            (step _ (exponent x r)
              (try_rule R unknown_error (bn.mod_add scaled r key.phi_n)
                (λ w. law.mod_add_lem scaled r key.phi_n w pair.phi_pos))
              (step _ (exponent x r * gamma)
                (try_rule R unknown_error (bn.mul_word (exponent x r) gamma)
                  (law.mul_word_lem (exponent x r) gamma))
                (step _ (t_exp + exponent x r * gamma)
                  (try_rule R unknown_error (mx.add t_exp (exponent x r * gamma))
                    (mlaw.add_lem t_exp (exponent x r * gamma)))
                  (step _ c (read cs) (
                    step _ gamma
                      (try_rule R unknown_error (bn.set_word gamma) (law.set_word_lem gamma))
                      (step _ (c ^ gamma % n)
                        (try_rule R unknown_error (mx.mod_exp_mont c gamma n mont)
                          (λ w. mlaw.mod_exp_mont_lem c gamma n mont w pair.n_odd fits))
                        (step _ (b * (c ^ gamma % n) % n)
                          (try_rule R unknown_error (bn.mod_mul b (c ^ gamma % n) n) (λ w.
                            law.mod_mul_lem b (c ^ gamma % n) n w (omega (arith, pair.n_large))))
                          (batch_loop_lem mont entries _ fits later
                            (Balanced-round gamma x r c t_exp b now balanced)))))))))))

  -- The same of the numbers' bytes: a batch whose entries have data, with commitments of the modulus'
  -- length to the numbers beside them, is accepted.
  pub verify_batch_commitments_lem :
      (d : List ℕ × List ℕ × List ℕ) (ds : List (List ℕ × List ℕ × List ℕ))
      → all_sized (mx.num_bytes key.public.n) (d ∷ ds) ≡ true
      → All HonestBytes (d ∷ ds)
      → Ensures R (λ _. Unit {0}) (verify_batch_commitments bn mx (some key) (some (d ∷ ds)))
  unfolding verify_batch_commitments
  verify_batch_commitments_lem d ds sized honest = passes_rule R _ (ap not sized) (
      call_rule R out_of_memory bn.ctx_new law.ctx_new_lem λ _ _.
        call_rule R out_of_memory bn.get law.get_lem λ _ _.
          call_rule R out_of_memory bn.get law.get_lem λ _ _.
            call_rule R out_of_memory bn.get law.get_lem λ _ _.
              call_rule R out_of_memory bn.get law.get_lem λ _ _.
                bind_rule R (mont_rule R bn law mx mlaw key.public pair.mont_fits) λ mont fits.
                  bind_rule R
                    (batch_loop_lem mont (d ∷ ds) (0, 1) fits honest (start_lem _ _ pair.n_large))
                    λ state balanced. finish_lem mont state fits balanced)
