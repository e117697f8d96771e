-- ===== src/Drng.antt =====
-- src/common/crypto/drng/drng.c: the deterministic generator. A byte string is a list of numbers.
-- OpenSSL's SHA512 and the allocator are parameters. A NULL pointer is `none`; the output buffer
-- and the generator have addresses, since the code compares them.
pub mod Stream
pub mod Read
pub mod Rules
mod Tests
use audit_mpc_lib.Common.{
  ℕ, zero, suc, ◌+◌, ◌-◌, Bool, ◌&&◌, ◌||◌, Option, none, some, List, [], ◌∷◌, ◌++◌, ltb, leb,
  if◌then◌else◌, take, drop, Result, ok, err, Action, Call, try, pure, fail, ◌>>=◌, ◌>>◌,
}

pub data DrngStatus : Type 0 where
  internal_error invalid_parameter out_of_memory : DrngStatus

-- `SHA512_DIGEST_LENGTH / 2`, the length of `data` and of `seed`
abbrev pub half_digest : ℕ
half_digest = 32

-- `sizeof(drng_t)`: `data`, `seed` and the byte `pos`
abbrev pub sizeof_drng : ℕ
sizeof_drng = 65

pub record Drng : Type 0 where
  pub block : List ℕ
  pub seed : List ℕ
  pub pos : ℕ

-- Whether the output would touch the generator itself.
abbrev pub overlaps : ℕ → ℕ → ℕ → Bool
overlaps rng rand len =
    (leb rng rand && leb rand (rng + sizeof_drng)) || (ltb rand rng && ltb rng (rand + len))

module _ (sha512 : List ℕ → List ℕ) where
  -- `SHA512(…, rng->data)` fills `data` and runs over into `seed`; `pos` becomes 0.
  abbrev pub refill : List ℕ → Drng
  refill input = record {
    block = take half_digest (sha512 input);
    seed = drop half_digest (sha512 input);
    pos = 0;
  }

  unfoldable pub drng_new :
      {W : Type 0} → Call W (Unit {0}) → Option (List ℕ) → Bool → Action W DrngStatus Drng
  drng_new malloc none has_out = fail invalid_parameter
  drng_new malloc (some []) has_out = fail invalid_parameter
  drng_new malloc (some (b ∷ seed)) has_out =
      if has_out
      then (do try out_of_memory malloc; pure (refill (b ∷ seed)))
      else fail invalid_parameter

  -- The `while` loop and the last copy; `out` is what was written so far.
  unfoldable pub read_loop : ℕ → Drng → ℕ → List ℕ → Option (List ℕ × Drng)
  read_loop zero rng len out = none
  read_loop (suc fuel) rng len out =
      let size = half_digest - rng.pos in
      let rest =
        read_loop fuel (refill rng.seed) (len - size) (out ++ take size (drop rng.pos rng.block)) in
      if ltb size len
      then rest
      else some (out ++ take len (drop rng.pos rng.block), record rng { pos = rng.pos + len })

  -- `none` outside: the loop ran out of fuel. Each round but the first takes 32 bytes, so `len + 2`
  -- rounds are enough.
  unfoldable pub drng_read_deterministic_rand :
      ℕ → Option Drng → Option ℕ → ℕ → Option (Result DrngStatus (List ℕ × Drng))
  drng_read_deterministic_rand address none rand len = some (err invalid_parameter)
  drng_read_deterministic_rand address (some rng) none len = some (err invalid_parameter)
  drng_read_deterministic_rand address (some rng) (some rand) zero = some (err invalid_parameter)
  drng_read_deterministic_rand address (some rng) (some rand) (suc len) =
      if overlaps address rand (suc len)
      then some (err invalid_parameter)
      else elim (read_loop (suc len + 2) rng (suc len) []) [ none ↦ none | some r ↦ some (ok r) ]
