-- ===== src/Pedersen/Keys.antt =====
-- ring_pedersen_generate_key_pair and ring_pedersen_private_key_get_public.
mod Tests
pub mod Phi
pub mod Generated
use audit_mpc_lib.Common.{
  ℕ, zero, suc, ◌/◌, Bool, true, false, Option, none, some, ltb, ◌==◌, if◌then◌else◌, Action, Call,
  pure, fail, fail_if, try, ◌>>=◌, ◌>>◌,
}
use audit_mpc_lib.Bignum.{Bignum}
use audit_mpc_lib.Bignum.Modexp.{Modexp}
use audit_mpc_lib.Pedersen.{
  PedersenStatus, unknown_error, keylen_too_short, invalid_parameter, out_of_memory,
  min_key_len_in_bits, PedersenPublic, PedersenPrivate,
}
use audit_mpc_lib.Pedersen.Codec.{attempt}

-- `spinning` is the model's own: the draw of a number that is coprime to the modulus goes on.
pub data KeyStatus : Type 0 where
  pedersen : PedersenStatus → KeyStatus
  spinning : KeyStatus

abbrev pub calls : {W A : Type 0} → PedersenStatus → Call W A → Action W KeyStatus A
calls status call = try (pedersen status) call

module _ {W : Type 0} (bn : Bignum W) (mx : Modexp W) (malloc : Call W (Unit {0})) where
  open bn use {ctx_new, get, rand_range, copy}
  open mx use {generate_prime, mul, sub, add, gcd, mod_sqr, mod_exp}

  -- The `do … while` loop; a greatest common divisor that cannot be computed counts as another one.
  unfoldable pub draw_coprime : ℕ → ℕ → Action W KeyStatus ℕ
  draw_coprime zero n = fail spinning
  draw_coprime (suc fuel) n = do
    r ← calls unknown_error (rand_range n)
    tmp ← attempt (gcd r n)
    elim tmp [
      | none ↦ draw_coprime fuel n
      | some g ↦ elim (g == 1) [ true ↦ pure r | false ↦ draw_coprime fuel n ]
    ]

  -- BN_CTX_get and BN_new for the nine numbers.
  unfoldable pub gets : ℕ → Action W KeyStatus (Unit {0})
  gets zero = pure tt
  gets (suc count) = do calls unknown_error get; gets count

  unfoldable pub generate_key_pair :
      ℕ → ℕ → Bool → Action W KeyStatus (PedersenPublic × PedersenPrivate)
  generate_key_pair fuel key_len false = fail (pedersen invalid_parameter)
  generate_key_pair fuel key_len true = do
    fail_if (ltb key_len min_key_len_in_bits) (pedersen keylen_too_short)
    calls out_of_memory ctx_new
    gets 9
    p ← calls unknown_error (generate_prime (key_len / 2))
    q ← calls unknown_error (generate_prime (key_len / 2))
    n ← calls unknown_error (mul p q)
    phi ← calls unknown_error (sub n p)
    phi ← calls unknown_error (sub phi q)
    phi ← calls unknown_error (add phi 1)
    lamda ← calls unknown_error (rand_range phi)
    r ← draw_coprime fuel n
    t ← calls unknown_error (mod_sqr r n)
    s ← calls unknown_error (mod_exp t lamda n)
    calls out_of_memory malloc
    calls out_of_memory malloc
    n' ← calls out_of_memory (copy n)
    s' ← calls out_of_memory (copy s)
    t' ← calls out_of_memory (copy t)
    pure (
      record { n = n'; s = s'; t = t'; mont = none },
      record { public = record { n = n; s = s; t = t; mont = none }; lamda = lamda; phi_n = phi },
    )

unfoldable pub get_public : Option PedersenPrivate → Option PedersenPublic
get_public (some key) = some key.public
get_public none = none
