-- ===== src/DhLog/Tests.antt =====
-- The Diffie-Hellman proof over the exponents modulo the order of secp256k1, with stand-ins for SHA256
-- and SHA512, and the comparison and the draw of a challenge at concrete inputs.
use audit_mpc_lib.Common.{
  ℕ, zero, suc, ◌+◌, ◌*◌, ◌%◌, ◌≤◌, ◌<◌, ◌≡◌, refl, true, ◌&&◌, some, List, [], ◌∷◌, ap, length,
  All, IsByte, arith, ◌==◌, replicate, length-replicate, from_bytes, ok, Call, Ensures, DecidesBy,
}
use audit_mpc_lib.Algebra.Model.{n, cyclic_algebra, code, cyclic_algebra-AlgebraLaws, fake_sha}
use audit_mpc_lib.Drng.{refill, drng_read_deterministic_rand, read_loop}
use audit_mpc_lib.Drng.Stream.{next_bytes, refill-IsValid}
use audit_mpc_lib.Zkp.{verification_failed}
use audit_mpc_lib.DhLog.{zkp, DhPublicData, e_loop, e_seed, dh_log_generate, dh_log_verify}
use audit_mpc_lib.DhLog.Challenge.{after_blocks, block, e_loop-block}
use audit_mpc_lib.Drng.Read.{read-next_bytes}
use audit_mpc_lib.DhLog.Decision.{dh_log_verify_lem}
use audit_mpc_lib.DhLog.Completeness.{Draw, dh_log_generate-verify}

abbrev ones : List ℕ → List ℕ
ones m = replicate 64 1

ones_len : (m : List ℕ) → length (ones m) ≡ 64
ones_len m = length-replicate {A = ℕ} 64 1

abbrev always : Call (Unit {0}) (Unit {0})
always w = (some tt, w)

ones_read :
    (m : List ℕ)
    → drng_read_deterministic_rand ones 1000 (some (refill ones m)) (some 0) 32
      ≡ some (ok (replicate 32 1, record (refill ones m) { pos = 32 }))
unfolding drng_read_deterministic_rand read_loop
ones_read m = refl

ones_block : (m : List ℕ) → block ones 0 (refill ones m) ≡ replicate 32 1
unfolding after_blocks
ones_block m =
    let here =
      read-next_bytes ones ones_len 1000 0 32 (refill ones m) (refill-IsValid ones ones_len m)
        (omega arith) refl in
    let same : next_bytes ones 32 (refill ones m)
        ≡ (replicate 32 1, record (refill ones m) { pos = 32 }) =
      cc (here, ones_read m) in
    ap (λ r. r.0) same

order_bytes : All IsByte cyclic_algebra.order
order_bytes = omega arith

ones_bytes : (m : List ℕ) (i : ℕ) → i ≤ 0 → All IsByte (block ones i (refill ones m))
ones_bytes m zero h = rw (ones_block m) (omega arith)
ones_bytes m (suc i) h = absurd (omega arith)

ones_below :
    (m : List ℕ) → from_bytes 0 (block ones 0 (refill ones m)) < from_bytes 0 cyclic_algebra.order
unfolding from_bytes
ones_below m = rw (ones_block m) (omega arith)

ones-Draw : (m : List ℕ) → Draw ones cyclic_algebra.order 5 m
ones-Draw m = record {
  k = 0;
  enough = omega arith;
  bytes = ones_bytes m;
  above = λ i h. absurd (omega arith);
  below = ones_below m;
}

drawn_block :
    (seed : List ℕ)
    → e_loop ones 1000 0 5 (refill ones seed) cyclic_algebra.order
      ≡ some (ok (block ones 0 (refill ones seed)))
drawn_block seed =
    e_loop-block ones ones_len 1000 0 refl cyclic_algebra.order refl order_bytes 0 5
      (refill ones seed) (refill-IsValid ones ones_len seed) (omega arith) (ones_bytes seed)
      (λ i h. absurd (omega arith)) (ones_below seed)

e_loop-block_example :
    e_loop ones 1000 0 5 (refill ones (7 ∷ [])) cyclic_algebra.order
    ≡ some (ok (block ones 0 (refill ones (7 ∷ []))))
e_loop-block_example =
    e_loop-block ones ones_len 1000 0 refl cyclic_algebra.order refl order_bytes 0 5
      (refill ones (7 ∷ [])) (refill-IsValid ones ones_len (7 ∷ [])) (omega arith)
      (ones_bytes (7 ∷ [])) (λ i h. absurd (omega arith)) (ones_below (7 ∷ []))

abbrev seed_at : List ℕ
seed_at =
    e_seed fake_sha (some (9 ∷ [])) (code 2)
      (record { a = code 3; b = code 4; c = code 5; x = code 6 }) (code 7) (code 8) (code 10)

abbrev challenge_at : List ℕ
challenge_at = block ones 0 (refill ones seed_at)

dh_log_verify_lem_example :
    DecidesBy
      (Unit {0})
      (zkp verification_failed)
      ((from_bytes 0 (12 ∷ []) % n == (4 * from_bytes 0 challenge_at + 7) % n)
        && ((2 * from_bytes 0 (11 ∷ []) % n == (6 * from_bytes 0 challenge_at + 8) % n)
            && ((3 * from_bytes 0 (12 ∷ []) + from_bytes 0 (11 ∷ [])) % n
                == (5 * from_bytes 0 challenge_at + 10) % n)))
      (dh_log_verify fake_sha ones always 1000 0 5
        (some cyclic_algebra)
        (some (9 ∷ []))
        (some (code 2))
        (some (record { a = code 3; b = code 4; c = code 5; x = code 6 }))
        (some (record { d = code 7; y = code 8; v = code 10; w = 11 ∷ []; z = 12 ∷ [] })))
dh_log_verify_lem_example =
    dh_log_verify_lem (Unit {0}) ones always (λ w. tt) cyclic_algebra n code
      cyclic_algebra-AlgebraLaws fake_sha 1000 0 5 9 [] 2 3 4 5 6 7 8 10 (11 ∷ []) (12 ∷ [])
      challenge_at (omega arith) (omega arith) (drawn_block seed_at)

abbrev five_three_four : DhPublicData
five_three_four = record {
  a = code (from_bytes 0 (3 ∷ []));
  b = code (from_bytes 0 (4 ∷ []));
  c = code (from_bytes 0 (3 ∷ []) * from_bytes 0 (4 ∷ []) + from_bytes 0 (5 ∷ []));
  x = code (2 * from_bytes 0 (5 ∷ []));
}

dh_log_generate-verify_example :
    Ensures
      (Unit {0})
      (λ proof.
        Ensures
          (Unit {0})
          (λ _. Unit {0})
          (dh_log_verify fake_sha ones always 1000 0 5
            (some cyclic_algebra)
            (some (9 ∷ []))
            (some (code 2))
            (some five_three_four)
            (some proof)))
      (dh_log_generate fake_sha ones always 1000 0 5
        (some cyclic_algebra)
        (some (9 ∷ []))
        (some (code 2))
        (some (5 ∷ []))
        (some (3 ∷ []))
        (some (4 ∷ []))
        (some five_three_four)
        true)
dh_log_generate-verify_example =
    dh_log_generate-verify (Unit {0}) ones ones_len always (λ w. tt) cyclic_algebra n code
      cyclic_algebra-AlgebraLaws fake_sha 1000 0 5 refl order_bytes (λ seed r. ones-Draw seed) 9 []
      2 (5 ∷ []) (3 ∷ []) (4 ∷ []) (omega arith) (omega arith) (omega arith)
