-- ===== src/Drng/Tests.antt =====
-- Runs of the generator with a stand-in for SHA512, and its theorems at concrete inputs.
use audit_mpc_lib.Common.{
  ℕ, ◌+◌, ◌%◌, ◌≡◌, refl, some, Call, List, [], ◌∷◌, ◌++◌, length, arith, ok, err, replicate,
  length-replicate,
}
use audit_mpc_lib.Drng.{Drng, refill, drng_read_deterministic_rand, read_loop, invalid_parameter}
use audit_mpc_lib.Drng.Stream.{IsValid, next_bytes, refill-IsValid}
use audit_mpc_lib.Drng.Read.{read-next_bytes, read-IsValid}

-- 64 copies of the input's first byte plus one
abbrev fake_digest : List ℕ → List ℕ
fake_digest [] = replicate 64 0
fake_digest (b ∷ m) = replicate 64 ((b + 1) % 256)

fake_digest_len : (m : List ℕ) → length (fake_digest m) ≡ 64
fake_digest_len [] = length-replicate {A = ℕ} 64 0
fake_digest_len (b ∷ m) = length-replicate {A = ℕ} 64 ((b + 1) % 256)

abbrev seeded : Drng
seeded = refill fake_digest (7 ∷ [])

seeded-IsValid : IsValid seeded
seeded-IsValid = refill-IsValid fake_digest fake_digest_len (7 ∷ [])

read_across :
    drng_read_deterministic_rand fake_digest 1000 (some seeded) (some 0) 34
    ≡ some (ok (replicate 32 8 ++ (9 ∷ 9 ∷ []), record (refill fake_digest (8 ∷ [])) { pos = 2 }))
unfolding drng_read_deterministic_rand read_loop
read_across = refl

read_into_itself :
    drng_read_deterministic_rand fake_digest 1000 (some seeded) (some 999) 2
    ≡ some (err invalid_parameter)
unfolding drng_read_deterministic_rand
read_into_itself = refl

read-next_bytes_example :
    drng_read_deterministic_rand fake_digest 1000 (some seeded) (some 0) 34
    ≡ some (ok (next_bytes fake_digest 34 seeded))
read-next_bytes_example =
    read-next_bytes fake_digest fake_digest_len 1000 0 34 seeded seeded-IsValid (omega arith) refl

read-IsValid_example :
    IsValid (record (refill fake_digest (8 ∷ [])) { pos = 2 })
    × (length {A = ℕ} (replicate 32 8 ++ (9 ∷ 9 ∷ [])) ≡ 34)
read-IsValid_example =
    read-IsValid fake_digest fake_digest_len 1000 0 34 seeded
      (record (refill fake_digest (8 ∷ [])) { pos = 2 }) (replicate 32 8 ++ (9 ∷ 9 ∷ []))
      seeded-IsValid read_across

abbrev always : Call (Unit {0}) (Unit {0})
always w = (some tt, w)
