-- ===== src/Paillier/Keys.antt =====
-- paillier_generate_key_pair.
pub mod Rounds
pub mod Generated
use audit_mpc_lib.Common.{
  ℕ, zero, suc, ◌/◌, Bool, true, false, not, ltb, ◌==◌, ◌||◌, if◌then◌else◌, Option, none, some,
  Result, ok, err, Action, Call, pure, fail, fail_if, try, ◌>>=◌, ◌>>◌,
}
use audit_mpc_lib.Bignum.{Bignum}
use audit_mpc_lib.Bignum.Modexp.{Modexp}
use audit_mpc_lib.Bignum.Integers.{Integers}
use audit_mpc_lib.Paillier.Cipher.{
  PaillierStatus, keylen_too_short, invalid_param, out_of_memory, spinning, unset, PublicKey,
  PrivateKey, settle,
}
use audit_mpc_lib.Pedersen.{min_key_len_in_bits}

-- The numbers that a round of the loop leaves.
pub record Round : Type 0 where
  pub p : ℕ
  pub q : ℕ
  pub n : ℕ
  pub lamda : ℕ

module _ {W : Type 0} (bn : Bignum W) (mx : Modexp W) (zn : Integers W) where
  open bn use {get, set_word, mod_inverse}
  open mx use {mul, sub, gcd, num_bits}
  open zn use {ctx_secure_new, add_word, sqr, dup, prime_in_class}

  -- The body of the loop. Where the two primes differ in length, `continue` goes on to the condition
  -- with the n and the lamda of the round before.
  unfoldable pub key_round : ℕ → ℕ → ℕ → ℕ → ℕ → ℕ → Action W PaillierStatus Round
  key_round key_len three seven eight n lamda = do
    p ← try unset (prime_in_class (key_len / 2) eight three)
    q ← try unset (prime_in_class (key_len / 2) eight seven)
    if not (num_bits p == num_bits q)
        then pure (record { p = p; q = q; n = n; lamda = lamda })
        else do
          n ← try unset (mul p q)
          lamda ← try unset (sub n p)
          lamda ← try unset (sub lamda q)
          lamda ← try unset (add_word lamda 1)
          pure (record { p = p; q = q; n = n; lamda = lamda })

  -- The condition of the loop, which a failed BN_gcd meets.
  unfoldable pub goes_on : Round → Action W PaillierStatus Bool
  goes_on r w =
      if r.p == r.q
      then (ok true, w)
      else (let g = gcd r.lamda r.n w in
          elim g.0 [ none ↦ (ok true, g.1) | some d ↦ (ok (not (d == 1)), g.1) ])

  unfoldable pub key_loop : ℕ → ℕ → ℕ → ℕ → ℕ → ℕ → ℕ → Action W PaillierStatus Round
  key_loop zero key_len three seven eight n lamda = fail spinning
  key_loop (suc fuel) key_len three seven eight n lamda = do
    r ← key_round key_len three seven eight n lamda
    more ← goes_on r
    elim more [ true ↦ key_loop fuel key_len three seven eight r.n r.lamda | false ↦ pure r ]

  -- `pub` and `priv` are whether the pointers are there.
  unfoldable pub generate_key_pair :
      Call W (Unit {0})
      → ℕ
      → ℕ
      → Bool
      → Bool
      → Action W PaillierStatus (Option (PublicKey × PrivateKey))
  generate_key_pair malloc fuel key_len public private = do
    fail_if (not public || not private) invalid_param
    fail_if (ltb key_len min_key_len_in_bits) keylen_too_short
    try out_of_memory ctx_secure_new
    settle zn none do
      try unset get
      try unset get
      try unset get
      try unset get
      try unset get
      try unset get
      try unset get
      try unset get
      try unset get
      try unset get
      three ← try unset (set_word 3)
      seven ← try unset (set_word 7)
      eight ← try unset (set_word 8)
      r ← key_loop fuel key_len three seven eight 0 0
      n2 ← try unset (sqr r.n)
      mu ← try unset (mod_inverse r.lamda r.n)
      try out_of_memory malloc
      try out_of_memory malloc
      pub_n ← try out_of_memory (dup r.n)
      pub_n2 ← try out_of_memory (dup n2)
      pure (
          some (
            record { n = pub_n; n2 = pub_n2 },
            record {
              public = record { n = r.n; n2 = n2 };
              p = r.p;
              q = r.q;
              lamda = r.lamda;
              mu = mu;
            },
          ))
