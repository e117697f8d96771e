-- ===== src/Pedersen/Tests.antt =====
-- The ring Pedersen code at concrete inputs: the modulus 35 with phi 24, and one of 256 bits for the
-- byte formats, with stand-ins for SHA256 and SHA512.
use audit_mpc_lib.Common.{
  ℕ, ◌-◌, ◌*◌, ◌%◌, ◌^◌, ◌≤◌, ◌<◌, ◌≡◌, refl, inl, true, none, some, List, [], ◌∷◌, length,
  replicate, arith, ◌==◌, from_bytes, put32, Call, Ensures, DecidesBy, Yields,
}
use audit_mpc_lib.Bignum.Model.{working, working-Documented, to_bytes, digits}
use audit_mpc_lib.Bignum.Modexp.Model.{working_modexp, working_modexp-ModexpDocumented}
use audit_mpc_lib.Pedersen.{PedersenPrivate, invalid_commitment}
use audit_mpc_lib.Pedersen.Codec.{public_deserialize, private_deserialize, private_serialize}
use audit_mpc_lib.Pedersen.Codec.Safety.{InBounds, IsRead, deserialize-InBounds}
use audit_mpc_lib.Pedersen.Codec.PublicBytes.{IsKey}
use audit_mpc_lib.Pedersen.Codec.RoundTrip.{private_bytes, private_serialize-deserialize}
use audit_mpc_lib.Pedersen.Commit.{create_commitment, verify_commitment}
use audit_mpc_lib.Pedersen.Commit.Agreement.{IsKeyPair, verify_commitment_lem}
use audit_mpc_lib.Pedersen.Commit.Honest.{create_commitment-verify}
use audit_mpc_lib.Pedersen.Batch.{all_sized, verify_batch_commitments}
use audit_mpc_lib.Pedersen.Batch.Honest.{verify_batch_commitments_lem}

abbrev pub always : Call (Unit {0}) (Unit {0})
always w = (some tt, w)

abbrev large : PedersenPrivate
large = record {
  public = record { n = 2 ^ 256 - 1; s = 5; t = 7; mont = some (2 ^ 256 - 1) };
  lamda = 3;
  phi_n = 11;
}

large-IsKey :
    IsKey
      (Unit {0})
      working
      working-Documented
      working_modexp
      working_modexp-ModexpDocumented
      large.public
unfolding digits
large-IsKey = record {
  n_bits = omega arith;
  s_le = omega arith;
  t_le = omega arith;
  n_int = omega arith;
  s_int = omega arith;
  t_int = omega arith;
}

large_len :
    length (
      private_bytes
        (Unit {0})
        working
        working-Documented
        working_modexp
        working_modexp-ModexpDocumented
        large)
    < 2 ^ 32
unfolding digits to_bytes put32
large_len = omega arith

large_room :
    length (
      private_bytes
        (Unit {0})
        working
        working-Documented
        working_modexp
        working_modexp-ModexpDocumented
        large)
    ≤ 100
unfolding digits to_bytes put32
large_room = omega arith

private_serialize-deserialize_example :
    (bytes : List ℕ) × (private_serialize working working_modexp (some large) true 100
      ≡ (some bytes, some (length bytes)))
    × Ensures
        (Unit {0})
        (λ k. k ≡ record large { public = record large.public { mont = none } })
        (private_deserialize true working working_modexp always (some bytes) (length bytes))
unfolding digits
private_serialize-deserialize_example =
    private_serialize-deserialize (Unit {0}) working working-Documented working_modexp
      working_modexp-ModexpDocumented true always (λ w. tt) large 100 large-IsKey (omega arith)
      (omega arith) large_len large_room

deserialize-InBounds_example :
    Yields InBounds (IsRead working working_modexp) (
      public_deserialize true working working_modexp always
        (some (255 ∷ 255 ∷ 255 ∷ 255 ∷ replicate 20 1))
        24)
    × Yields InBounds
        (λ key. IsRead working working_modexp key.public)
        (private_deserialize true working working_modexp always
          (some (255 ∷ 255 ∷ 255 ∷ 255 ∷ replicate 20 1))
          24)
deserialize-InBounds_example =
    deserialize-InBounds working working_modexp true always (255 ∷ 255 ∷ 255 ∷ 255 ∷ replicate 20 1)
      (omega arith)

abbrev pub small : PedersenPrivate
small = record { public = record { n = 35; s = 9; t = 4; mont = none }; lamda = 5; phi_n = 24 }

pub small-IsKeyPair : IsKeyPair small
small-IsKeyPair = record {
  n_odd = refl;
  n_large = omega arith;
  phi_pos = omega arith;
  s_lem = refl;
  period = refl;
  mont_fits = inl refl;
}

verify_commitment_lem_example :
    DecidesBy
      (Unit {0})
      invalid_commitment
      (9 ^ from_bytes 0 (2 ∷ []) * 4 ^ from_bytes 0 (3 ∷ []) % 35 == from_bytes 0 (4 ∷ []))
      (verify_commitment working working_modexp
        (some small)
        (some (2 ∷ []))
        (some (3 ∷ []))
        (some (4 ∷ [])))
unfolding digits
verify_commitment_lem_example =
    verify_commitment_lem (Unit {0}) working working-Documented working_modexp
      working_modexp-ModexpDocumented small 2 3 4 [] [] [] small-IsKeyPair refl

create_commitment-verify_example :
    Ensures
      (Unit {0})
      (λ c.
        Ensures
          (Unit {0})
          (λ _. Unit {0})
          (verify_commitment working working_modexp
            (some small)
            (some (2 ∷ []))
            (some (3 ∷ []))
            (some c)))
      (create_commitment working working_modexp
        (some small.public)
        (some (2 ∷ []))
        (some (3 ∷ []))
        true
        8).1
unfolding digits
create_commitment-verify_example =
    create_commitment-verify (Unit {0}) working working-Documented working_modexp
      working_modexp-ModexpDocumented small 2 3 [] [] 8 small-IsKeyPair (omega arith)

verify_batch_commitments_lem_example :
    Ensures
      (Unit {0})
      (λ _. Unit {0})
      (verify_batch_commitments working working_modexp
        (some small)
        (some ((2 ∷ [], 3 ∷ [], 4 ∷ []) ∷ (1 ∷ [], 1 ∷ [], 1 ∷ []) ∷ [])))
unfolding digits all_sized from_bytes
verify_batch_commitments_lem_example =
    verify_batch_commitments_lem (Unit {0}) working working-Documented working_modexp
      working_modexp-ModexpDocumented small small-IsKeyPair (2 ∷ [], 3 ∷ [], 4 ∷ [])
      ((1 ∷ [], 1 ∷ [], 1 ∷ []) ∷ []) refl (refl, (refl, tt))
