-- ===== src/Paillier/Codec/Tests.antt =====
-- The byte formats at concrete keys and buffers.
use audit_mpc_lib.Common.{
  false, ◌*◌, ◌≤◌, ◌≡◌, refl, ◌∷◌, some, true, length, replicate, arith, Call, Yields, ◌>>=◌,
}
use audit_mpc_lib.Bignum.Model.{working, working-Documented, digits}
use audit_mpc_lib.Bignum.Modexp.Model.{working_modexp, working_modexp-ModexpDocumented}
use audit_mpc_lib.Bignum.Integers.Model.{working_integers, working_integers-IntegersDocumented}
use audit_mpc_lib.Pedersen.{min_key_len_in_bits}
use audit_mpc_lib.Pedersen.Codec.Safety.{InBounds}
use audit_mpc_lib.Paillier.Cipher.{PrivateKey}
use audit_mpc_lib.Paillier.Codec.{
  public_key_deserialize, private_key_serialize, private_key_deserialize,
}
use audit_mpc_lib.Paillier.Codec.RoundTrip.{
  IsConsistent, with_buffer, private_key_serialize-deserialize,
}
use audit_mpc_lib.Paillier.Codec.Bounds.{
  public_key_deserialize-InBounds, private_key_deserialize-InBounds,
}

abbrev always : Call (Unit {0}) (Unit {0})
always w = (some tt, w)

-- Two primes of 16 bytes.
abbrev long_key : PrivateKey
long_key = record {
  public = record {
    n = 28948022309329048855892746252171977035797640320570033727563187384944911487381;
    n2 =
        28948022309329048855892746252171977035797640320570033727563187384944911487381
        * 28948022309329048855892746252171977035797640320570033727563187384944911487381;
  };
  p = 170141183460469231731687303715884105851;
  q = 170141183460469231731687303715884106031;
  lamda = 28948022309329048855892746252171977035457357953649095264099812777513143275500;
  mu = 8975950866369938109395306301099406811988726639034526926406256893563046669157;
}

long_key-IsConsistent : IsConsistent working_modexp long_key
unfolding digits
long_key-IsConsistent = record {
  product = refl;
  square = refl;
  totient = refl;
  room = omega arith;
  positive = omega arith;
  inverse = refl;
  reduced = omega arith;
  same_len = refl;
  large = omega arith;
  long = omega arith;
  short = omega arith;
}

private_key_serialize-deserialize_example :
    Yields
      (λ _. ⊥)
      (λ k. k ≡ long_key)
      (private_key_serialize working working_modexp working_integers true (some long_key) true 40
        >>= λ r. with_buffer r.0 λ bytes.
          private_key_deserialize working working_modexp working_integers true always
            (some bytes)
            (length bytes))
unfolding digits
private_key_serialize-deserialize_example =
    private_key_serialize-deserialize {R = Unit {0}} tt working working-Documented working_modexp
      working_modexp-ModexpDocumented working_integers working_integers-IntegersDocumented true
      always long_key 40 (λ w. tt) long_key-IsConsistent (omega arith)

public_key_deserialize-InBounds_example :
    Yields InBounds
      (λ key. min_key_len_in_bits ≤ working_modexp.num_bits key.n)
      (public_key_deserialize working working_modexp working_integers true always
        (some (255 ∷ 255 ∷ 255 ∷ 255 ∷ replicate 33 1))
        37)
public_key_deserialize-InBounds_example =
    public_key_deserialize-InBounds working working_modexp working_integers true always
      (255 ∷ 255 ∷ 255 ∷ 255 ∷ replicate 33 1) (omega arith)

-- A length word that wraps around: 2 * (2 ^ 31 + 16) is 32 modulo 2 ^ 32.
private_key_deserialize-InBounds_example :
    Yields InBounds
      (λ key. min_key_len_in_bits ≤ working_modexp.num_bits key.public.n)
      (private_key_deserialize working working_modexp working_integers false always
        (some (16 ∷ 0 ∷ 0 ∷ 128 ∷ replicate 32 1))
        36)
private_key_deserialize-InBounds_example =
    private_key_deserialize-InBounds working working_modexp working_integers false always
      (16 ∷ 0 ∷ 0 ∷ 128 ∷ replicate 32 1) (omega arith)
