-- ===== src/Paillier/CoprimeProof.antt =====
-- Of src/common/crypto/paillier/paillier_zkp.c: deterministic_rand, paillier_generate_coprime_zkp and
-- paillier_verify_coprime_zkp, the proof that n is coprime with lamda. SHA256, SHA512 and malloc are
-- parameters; so is the table alpha_bin of paillier/alpha.h, of which nothing is used but that its
-- number is coprime with n. `asserts` says whether the build keeps its asserts, which src/common/
-- CMakeLists.txt drops (NDEBUG) from every build that is not a debug build.
pub mod Draws
pub mod Completeness
pub mod Periods
pub mod Soundness
pub mod Protocol
mod Tests
use audit_mpc_lib.Common.{
  ℕ, zero, suc, ◌+◌, ◌*◌, ◌/◌, ◌%◌, ◌^◌, Bool, true, false, not, ◌&&◌, ◌||◌, ltb, ◌==◌,
  if◌then◌else◌, Option, none, some, List, [], ◌∷◌, ◌++◌, length, take, drop, Result, ok, err,
  Action, Call, pure, fail, fail_if, try, ◌>>=◌, ◌>>◌,
}
use audit_mpc_lib.Common.Sha.{Sha256}
use audit_mpc_lib.Bignum.{Bignum}
use audit_mpc_lib.Bignum.Modexp.{Modexp}
use audit_mpc_lib.Bignum.Integers.{Integers}
use audit_mpc_lib.Paillier.{CoprimeError, failed, is_coprime_fast}
use audit_mpc_lib.Paillier.Cipher.{
  PaillierStatus, invalid_key, invalid_param, out_of_memory, invalid_proof, buffer_too_short,
  spinning, aborted, openssl, unset, PublicKey, PrivateKey, settle, coprime,
}
use audit_mpc_lib.Paillier.Messages.{Written}

-- `COPRIME_ZKP_K`, and `COPRIME_ZKP_SALT` with the byte that ends it: "coprime zkp"
abbrev pub coprime_zkp_k : ℕ
coprime_zkp_k = 16

abbrev pub coprime_zkp_salt : List ℕ
coprime_zkp_salt = 99 ∷ 111 ∷ 112 ∷ 114 ∷ 105 ∷ 109 ∷ 101 ∷ 32 ∷ 122 ∷ 107 ∷ 112 ∷ 0 ∷ []

-- `!aad && aad_len`, and the same of y: no bytes, but a length that is not zero.
abbrev pub missing : Option (List ℕ) → Bool → Bool
missing none len_set = len_set
missing (some bytes) len_set = false

-- What ends a call where an assert does not hold whose condition is then tested: `aborted` where the
-- build keeps asserts, and the error of the test.
abbrev pub asserting : Bool → PaillierStatus → PaillierStatus
asserting true e = aborted
asserting false e = e

module _ (sha512 : List ℕ → List ℕ) where
  -- The loop of deterministic_rand: the bytes behind which it stops, and the 32 bytes there.
  unfoldable pub stretch : ℕ → List ℕ → List ℕ × List ℕ
  stretch zero s = ([], s)
  stretch (suc k) s =
      let rest = stretch k (take 32 (drop 32 (sha512 s))) in (take 32 (sha512 s) ++ rest.0, rest.1)

  -- What is left in the buffer, and the next seed.
  unfoldable pub random_bytes : ℕ → List ℕ → List ℕ
  unfolding stretch
  random_bytes n_len seed = let out = stretch (n_len / 32) seed in take n_len (out.0 ++ out.1)

  unfoldable pub next_seed : ℕ → List ℕ → List ℕ
  unfolding stretch
  next_seed n_len seed = (stretch (n_len / 32) seed).1

module _ {W : Type 0} (bn : Bignum W) (mx : Modexp W) (zn : Integers W) (sha : Sha256)
    (sha512 : List ℕ → List ℕ) (malloc : Call W (Unit {0})) where
  open bn use {ctx_new, get, bin2bn, bn2bin, bn2binpad, mod_inverse, modulo}
  open mx use {num_bytes, mont_new, mont_set, mod_exp_mont, is_prime}

  -- The number and the seed, which keep their values where memory runs out.
  unfoldable pub deterministic_rand : List ℕ → ℕ → ℕ → Action W PaillierStatus (ℕ × List ℕ)
  deterministic_rand seed n_len x w =
      let m = malloc w in
      elim m.0 [
        | none ↦ (ok (x, seed), m.1)
        | some _ ↦
            let r = bin2bn (random_bytes sha512 n_len seed) m.1 in
            elim r.0 [
              | none ↦ (ok (x, next_seed sha512 n_len seed), r.1)
              | some x' ↦ (ok (x', next_seed sha512 n_len seed), r.1)
            ]
      ]

  -- `is_coprime_fast`: 1 and 0, and -1 as a failure.
  unfoldable pub unit_test : ℕ → ℕ → Action W PaillierStatus Bool
  unit_test a b w =
      let r = is_coprime_fast bn a b w in
      elim r.0 [
        | ok yes' ↦ (ok yes', r.1)
        | err e ↦ elim e [
          | failed ↦ (err unset, r.1)
          | CoprimeError.spinning ↦ (err PaillierStatus.spinning, r.1)
        ]
      ]

  -- The loop that draws until a number is coprime with n.
  unfoldable pub draw_unit : ℕ → ℕ → ℕ → List ℕ → ℕ → Action W PaillierStatus (ℕ × List ℕ)
  draw_unit zero n n_len seed x = fail PaillierStatus.spinning
  draw_unit (suc fuel) n n_len seed x = do
    (x, seed) ← deterministic_rand seed n_len x
    unit ← unit_test x n
    elim unit [ true ↦ pure (x, seed) | false ↦ draw_unit fuel n n_len seed x ]

  unfoldable pub seed_of : List ℕ → Option (List ℕ) → List ℕ
  seed_of n_bytes none = sha.final (sha.update (sha.update sha.init coprime_zkp_salt) n_bytes)
  seed_of n_bytes (some aad) =
      sha.final (sha.update (sha.update (sha.update sha.init coprime_zkp_salt) n_bytes) aad)

  -- The rounds that are left: each draws a number and writes its power.
  unfoldable pub prove_rounds :
      ℕ → ℕ → ℕ → ℕ → ℕ → Option ℕ → List ℕ → ℕ → Action W PaillierStatus (List ℕ)
  prove_rounds fuel zero n n_len m mont seed x = pure []
  prove_rounds fuel (suc k) n n_len m mont seed x = do
    (x, seed) ← draw_unit fuel n n_len seed x
    tmp ← try unset (mod_exp_mont x m n mont)
    y ← try unset (bn2binpad tmp n_len)
    ys ← prove_rounds fuel k n n_len m mont seed x
    pure (y ++ ys)

  -- Behind the tests: what is stored at y_real_len, and the call.
  unfoldable pub generate_coprime_zkp :
      Bool → ℕ → Option PrivateKey → Option (List ℕ) → Bool → Bool → ℕ → Written W
  generate_coprime_zkp asserts fuel none aad aad_len_set y y_len = (none, fail invalid_key)
  generate_coprime_zkp asserts fuel (some priv) aad aad_len_set y y_len =
      let n = priv.public.n in
      let n_len = num_bytes n in
      if missing aad aad_len_set
      then (none, fail invalid_param)
      else if not y && ltb 0 y_len
      then (none, fail invalid_param)
      else if not (n_len % 32 == 0)
      then (none, fail (asserting asserts invalid_key))
      else (
        some (n_len * coprime_zkp_k % 2 ^ 32),
        do
          fail_if (not y || ltb y_len (n_len * coprime_zkp_k % 2 ^ 32)) buffer_too_short
          settle zn none do
            try unset ctx_new
            try unset get
            try unset get
            try unset get
            try unset mont_new
            m ← try unset (mod_inverse n priv.lamda)
            try out_of_memory malloc
            fail_if (length (bn2bin n) == 0) unset
            let seed = seed_of (bn2bin n) aad
            mont ← try unset (mont_set n)
            ys ← prove_rounds fuel coprime_zkp_k n n_len m (some mont) seed 0
            pure (some ys),
      )

  unfoldable pub verify_rounds :
      ℕ → ℕ → ℕ → ℕ → Option ℕ → List ℕ → ℕ → List ℕ → Action W PaillierStatus (Unit {0})
  verify_rounds fuel zero n n_len mont seed x y = pure tt
  verify_rounds fuel (suc k) n n_len mont seed x y = do
    (x, seed) ← draw_unit fuel n n_len seed x
    x ← try unset (modulo x n)
    bn_y ← try unset (bin2bn (take n_len y))
    tmp ← try unset (mod_exp_mont bn_y n n mont)
    fail_if (not (tmp == x)) invalid_proof
    verify_rounds fuel k n n_len mont seed x (drop n_len y)

  -- A failure of BN_is_prime_ex counts as a yes.
  unfoldable pub refuse_prime : ℕ → Action W PaillierStatus (Unit {0})
  refuse_prime n w =
      let r = is_prime n w in
      elim r.0 [ none ↦ (err invalid_key, r.1) | some prime ↦ fail_if prime invalid_key r.1 ]

  unfoldable pub check_alpha : List ℕ → ℕ → Action W PaillierStatus (Unit {0})
  check_alpha alpha_bin n = do
    tmp ← try unset (bin2bn alpha_bin)
    unit ← coprime bn tmp n
    fail_if (not unit) invalid_key

  unfoldable pub verify_coprime_zkp :
      Bool
      → ℕ
      → List ℕ
      → Option PublicKey
      → Option (List ℕ)
      → Bool
      → Option (List ℕ)
      → Bool
      → Action W PaillierStatus (Unit {0})
  verify_coprime_zkp asserts fuel alpha_bin none aad aad_len_set y y_len_set = fail invalid_key
  verify_coprime_zkp asserts fuel alpha_bin (some key) aad aad_len_set none y_len_set = do
    fail_if (missing aad aad_len_set) invalid_param
    fail_if y_len_set invalid_param
    fail_if (not (num_bytes key.n % 32 == 0)) (asserting asserts invalid_key)
    fail_if (asserts && not (0 == num_bytes key.n * coprime_zkp_k % 2 ^ 32)) aborted
    fail invalid_param
  verify_coprime_zkp asserts fuel alpha_bin (some key) aad aad_len_set (some y) y_len_set = do
    fail_if (missing aad aad_len_set) invalid_param
    let n = key.n
    let n_len = num_bytes n
    fail_if (not (n_len % 32 == 0)) (asserting asserts invalid_key)
    fail_if (asserts && not (length y == n_len * coprime_zkp_k % 2 ^ 32)) aborted
    fail_if (ltb (length y) (n_len * coprime_zkp_k % 2 ^ 32)) invalid_param
    settle zn tt do
      try unset ctx_new
      refuse_prime n
      try unset get
      try unset get
      try unset get
      try unset mont_new
      check_alpha alpha_bin n
      try out_of_memory malloc
      fail_if (length (bn2bin n) == 0) unset
      let seed = seed_of (bn2bin n) aad
      mont ← try unset (mont_set n)
      verify_rounds fuel coprime_zkp_k n n_len (some mont) seed 0 y
