-- ===== src/Keccak/Tests.antt =====
-- Runs over a stand-in for SHA3_absorb whose state is the number of blocks taken, and the theorems
-- at concrete inputs.
use audit_mpc_lib.Common.{
  ℕ, ◌+◌, ◌-◌, ◌/◌, ◌%◌, ◌≡◌, refl, ap, ◌∙◌, List, [], ◌∷◌, ◌++◌, length, take, replicate, arith,
  length-append, length-take, some,
}
use audit_mpc_lib.Keccak.{
  Keccak, buf_size, keccak1600_init, keccak1600_final, keccak1600_update, absorb_input, padded,
  rate,
}
use audit_mpc_lib.Keccak.Sponge.{Absorbs}
use audit_mpc_lib.Keccak.Buffer.{Holds, update-Holds}
use audit_mpc_lib.Keccak.Digest.{digest, updates, init_updates-digest, init-Holds}
use mathlib.Core.List.{flatten}

-- counts blocks of 136 bytes, the rate of a 256-bit digest
abbrev count_blocks : ℕ → List ℕ → ℕ → ℕ × ℕ
count_blocks s m r = (s + length m / 136, length m % 136)

count_blocks-Absorbs : Absorbs count_blocks 136
count_blocks-Absorbs = record {
  rem_lt = λ s m. omega arith;
  rem_le = λ s m. omega arith;
  short = λ s m h. ground arith;
  whole = λ s m.
      let l : length (take (length m - length m % 136) m) ≡ length m - length m % 136 =
        length-take (length m - length m % 136) m ∙ omega arith in
      ground arith;
  resume = λ s t m n h. ground (arith, length-append m n, ap (λ p. p.0) h, ap (λ p. p.1) h);
  one_block = λ s m h. omega arith;
}

abbrev fresh : Keccak ℕ
fresh = record {
  state = 5;
  block_size = 0;
  md_size = 0;
  num = 9;
  buf = replicate buf_size 1;
  pad = 0;
}

abbrev started : Keccak ℕ
started = record {
  state = 0;
  block_size = 136;
  md_size = 32;
  num = 0;
  buf = replicate buf_size 1;
  pad = 1;
}

init_started : keccak1600_init 0 256 1 fresh ≡ some started
unfolding keccak1600_init
init_started = refl

abbrev show_state : ℕ → ℕ → ℕ → List ℕ
show_state s md r = s ∷ md ∷ r ∷ []

final_run :
    keccak1600_final count_blocks show_state
      (updates count_blocks 0 started (replicate 100 7 ∷ replicate 200 8 ∷ []))
    ≡ 3 ∷ 32 ∷ 136 ∷ []
unfolding keccak1600_final updates keccak1600_update absorb_input padded
final_run = refl

init_updates-digest_example :
    keccak1600_final count_blocks show_state
      (updates count_blocks 0 started (replicate 100 7 ∷ replicate 200 8 ∷ []))
    ≡ digest count_blocks 0 show_state 1
        (256 / 8)
        (rate 256)
        (flatten (replicate 100 7 ∷ replicate 200 8 ∷ []))
init_updates-digest_example =
    init_updates-digest count_blocks 0 show_state 256 1 fresh started
      (replicate 100 7 ∷ replicate 200 8 ∷ []) refl init_started count_blocks-Absorbs

update-Holds_example :
    Holds count_blocks 0
      ([] ++ replicate 100 7)
      (keccak1600_update count_blocks started (replicate 100 7))
update-Holds_example =
    update-Holds count_blocks 0 started [] (replicate 100 7) count_blocks-Absorbs
      (init-Holds count_blocks 0 256 1 fresh started refl init_started count_blocks-Absorbs)
