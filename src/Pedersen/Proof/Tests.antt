-- ===== src/Pedersen/Proof/Tests.antt =====
-- The proof of the parameters at concrete inputs: the modulus 35 with phi 24.
use native.Mathlib.Nat.{eq-one_of_dvd-one}
use audit_mpc_lib.Common.{
  ℕ, zero, suc, ◌≡◌, refl, inl, none, some, List, [], ◌∷◌, length, replicate, length-replicate,
  arith, ltb, if◌then◌else◌, ok, Ensures, DecidesBy,
}
use audit_mpc_lib.Algebra.Model.{fake_sha}
use audit_mpc_lib.Bignum.{Bignum}
use audit_mpc_lib.Bignum.Model.{
  working, working-Documented, to_bytes, digits, length-to_bytes, from_bytes-to_bytes,
}
use audit_mpc_lib.Bignum.Modexp.{Modexp}
use audit_mpc_lib.Bignum.Modexp.Model.{
  gcd_steps, gcd_steps_lem, working_modexp, working_modexp-ModexpDocumented,
}
use audit_mpc_lib.Zkp.{verification_failed}
use audit_mpc_lib.Paillier.Coprime.{Coprime}
use audit_mpc_lib.Pedersen.Proof.{ParamProof, zkp, serialized_size, init_param_zkp}
use audit_mpc_lib.Pedersen.Proof.Protocol.{param_zkp_generate, param_zkp_verify}
use audit_mpc_lib.Pedersen.Proof.Protocol.Seed.{Padding, Fitting}
use audit_mpc_lib.Pedersen.Proof.Protocol.Format.{proof_bytes}
use audit_mpc_lib.Pedersen.Proof.Protocol.Equations.{equations}
use audit_mpc_lib.Pedersen.Proof.Protocol.Decision.{challenges, Checked, param_zkp_verify_lem}
use audit_mpc_lib.Pedersen.Proof.Protocol.Completeness.{param_zkp_generate-verify}
use audit_mpc_lib.Pedersen.Tests.{always, small, small-IsKeyPair}

abbrev ones : List ℕ → List ℕ
ones m = replicate 64 1

ones_len : (m : List ℕ) → length (ones m) ≡ 64
ones_len m = length-replicate {A = ℕ} 64 1

padding : Padding (Unit {0}) working (λ n len. to_bytes len n)
padding = record {
  padded_lem = λ n len w h. refl;
  padded_len = λ n len. length-to_bytes len n;
  padded_number = λ n len h. from_bytes-to_bytes len n h;
}

Coprime-35_4 : Coprime 35 4
unfolding gcd_steps
Coprime-35_4 d x y = eq-one_of_dvd-one (gcd_steps_lem 4 35 4 d x y)

small-Checked :
    Checked
      (Unit {0})
      working
      working-Documented
      working_modexp
      working_modexp-ModexpDocumented
      ones
      ones_len
      1000
      0
      refl
      small.public
unfolding digits
small-Checked = record {
  n_odd = refl;
  s_le = omega arith;
  t_le = omega arith;
  size_small = omega arith;
  mont_fits = inl refl;
  coprime = Coprime-35_4;
  composite = λ w. refl;
}

-- A proof of 80 equal pairs.
abbrev pairs_at : ParamProof
pairs_at = replicate 80 (4, 1)

replicate-Fitting : (k : ℕ) → Fitting 1 (replicate k (4, 1))
replicate-Fitting zero = tt
replicate-Fitting (suc k) = ((omega arith, omega arith), replicate-Fitting k)

param_zkp_verify_lem_example :
    DecidesBy
      (Unit {0})
      (zkp verification_failed)
      (equations small.public
        (challenges
          (Unit {0})
          working
          working-Documented
          working_modexp
          working_modexp-ModexpDocumented
          ones
          ones_len
          1000
          0
          refl
          (λ n len. to_bytes len n)
          padding
          fake_sha
          always
          (λ w. tt)
          small.public
          (9 ∷ [])
          pairs_at)
        pairs_at)
      (param_zkp_verify working working_modexp fake_sha ones always 1000 0
        (some small.public)
        (some (9 ∷ []))
        (some (proof_bytes (λ n len. to_bytes len n) 1 pairs_at))
        (length (proof_bytes (λ n len. to_bytes len n) 1 pairs_at)))
unfolding digits
param_zkp_verify_lem_example =
    param_zkp_verify_lem (Unit {0}) working working-Documented working_modexp
      working_modexp-ModexpDocumented ones ones_len 1000 0 refl (λ n len. to_bytes len n) padding
      fake_sha always (λ w. tt) small.public 9 [] pairs_at small-Checked refl (replicate-Fitting 80)

param_zkp_generate-verify_example :
    Ensures
      (Unit {0})
      (λ bytes.
        Ensures
          (Unit {0})
          (λ _. Unit {0})
          (param_zkp_verify working working_modexp fake_sha ones always 1000 0
            (some small.public)
            (some (9 ∷ []))
            (some bytes)
            (length bytes)))
      (param_zkp_generate working working_modexp fake_sha ones always 1000 0
        (some small)
        (some (9 ∷ []))
        (some [])
        1000).1
unfolding digits serialized_size
param_zkp_generate-verify_example =
    param_zkp_generate-verify (Unit {0}) working working-Documented working_modexp
      working_modexp-ModexpDocumented ones ones_len 1000 0 refl (λ n len. to_bytes len n) padding
      fake_sha always (λ w. tt) small 9 [] [] 1000 small-IsKeyPair
      (record { lamda_lt = omega arith; phi_le = omega arith }) small-Checked (omega arith)

-- A library whose context has room for 160 numbers.
abbrev counting : Bignum ℕ
counting = record {
  ctx_new = λ w. (some tt, 0);
  get = λ w. (if ltb w 160 then some tt else none, suc w);
  bin2bn = λ s w. (none, w);
  bin2bn_negative = λ w. (none, w);
  bn2binpad = λ n len w. (none, w);
  mod_add = λ a b m w. (none, w);
  mod_sub = λ a b m w. (none, w);
  mod_mul = λ a b m w. (none, w);
  mod_inverse = λ a m w. (none, w);
  rand_range = λ m w. (none, w);
  copy = λ a w. (none, w);
  set_word = λ a w. (none, w);
  mul_word = λ a n w. (none, w);
  modulo = λ a m w. (none, w);
  mod_add_quick = λ a b m w. (none, w);
  mod_sub_quick = λ a b m w. (none, w);
  bn2bin = λ n. [];
}

abbrev counting_modexp : Modexp ℕ
counting_modexp = record {
  num_bytes = λ n. 1;
  num_bits = λ n. 8;
  mont_new = λ w. (none, w);
  mont_set = λ m w. (none, w);
  mod_exp = λ a p m w. (none, w);
  mod_exp_mont = λ a p m mont w. (none, w);
  mod_exp2_mont = λ a p b q m mont w. (none, w);
  mod_sqr = λ a m w. (none, w);
  add = λ a b w. (none, w);
  sub = λ a b w. (none, w);
  mul = λ a b w. (none, w);
  gcd = λ a b w. (none, w);
  generate_prime = λ bits w. (none, w);
  is_prime = λ n w. (none, w);
  rand64 = λ w. (none, w);
}

-- Where memory runs out behind the numbers of the proof, it is accepted unread.
unread_accepted :
    (param_zkp_verify counting counting_modexp fake_sha ones
      (λ w. (none, w))
      1000
      0
      (some small.public)
      (some (9 ∷ []))
      (some (1 ∷ 2 ∷ 3 ∷ []))
      (serialized_size counting counting_modexp small.public)
      0).0
    ≡ ok tt
unfolding param_zkp_verify init_param_zkp serialized_size
unread_accepted = refl
