-- ===== src/Bignum/Modexp/Model.antt =====
-- A library that never fails, computed on the natural numbers: what the interface asks for can be met.
use Prim.Native.Nat.{◌∣◌}
use native.Mathlib.Nat.{dvd-mod_iff}
use audit_mpc_lib.Common.{ℕ, zero, suc, ◌+◌, ◌-◌, ◌*◌, ◌%◌, ◌^◌, refl, false, some, arith}
use audit_mpc_lib.Bignum.Model.{
  to_bytes, num_bytes, num_bytes_lem, length-to_bytes, from_bytes-to_bytes,
}
use audit_mpc_lib.Bignum.Modexp.{Modexp, ModexpDocumented}

-- Euclid's algorithm.
unfoldable pub gcd_steps : ℕ → ℕ → ℕ → ℕ
gcd_steps zero a b = a
gcd_steps (suc fuel) a zero = a
gcd_steps (suc fuel) a (suc b) = gcd_steps fuel (suc b) (a % suc b)

pub gcd_steps_lem : (fuel a b d : ℕ) → d ∣ a → d ∣ b → d ∣ gcd_steps fuel a b
unfolding gcd_steps
gcd_steps_lem zero a b d x y = x
gcd_steps_lem (suc fuel) a zero d x y = x
gcd_steps_lem (suc fuel) a (suc b) d x y =
    gcd_steps_lem fuel (suc b) (a % suc b) d y ((dvd-mod_iff d y).1 x)

-- Primes are not tested and not generated: these two are called, and their answers compared with.
abbrev pub working_modexp : Modexp (Unit {0})
working_modexp = record {
  num_bytes = num_bytes;
  num_bits = λ n. 8 * num_bytes n;
  mont_new = λ w. (some tt, w);
  mont_set = λ m w. (some m, w);
  mod_exp = λ a p m w. (some (a ^ p % m), w);
  mod_exp_mont = λ a p m mont w. (some (a ^ p % m), w);
  mod_exp2_mont = λ a p b q m mont w. (some (a ^ p * b ^ q % m), w);
  mod_sqr = λ a m w. (some (a * a % m), w);
  add = λ a b w. (some (a + b), w);
  sub = λ a b w. (some (a - b), w);
  mul = λ a b w. (some (a * b), w);
  gcd = λ a b w. (some (gcd_steps b a b), w);
  generate_prime = λ bits w. (some 7, w);
  is_prime = λ n w. (some false, w);
  rand64 = λ w. (some 5, w);
}

pub working_modexp-ModexpDocumented :
    ModexpDocumented (Unit {0}) working_modexp (λ n. to_bytes (num_bytes n) n)
working_modexp-ModexpDocumented = record {
  bn2bin_len = λ n. length-to_bytes (num_bytes n) n;
  bn2bin_lem = λ n. from_bytes-to_bytes (num_bytes n) n (num_bytes_lem n);
  num_bytes_lem = num_bytes_lem;
  mont_set_lem = λ m w. refl;
  mod_exp_lem = λ a p m w h. refl;
  mod_exp_mont_lem = λ a p m mont w odd fits. refl;
  mod_exp2_mont_lem = λ a p b q m mont w odd fits. refl;
  mod_sqr_lem = λ a m w h. refl;
  add_lem = λ a b w. refl;
  sub_lem = λ a b w h. refl;
  mul_lem = λ a b w. refl;
  gcd_lem = λ a b w. gcd_steps_lem b a b;
  generate_prime_lem = λ bits w h. omega arith;
  rand64_lem = λ w. omega arith;
}
