-- ===== src/DhLog/Challenge.antt =====
-- The challenge is the first block of the generator's stream below the group order.
use Prim.Native.Nat.{compare, Ordering}
use audit_mpc_lib.Common.{
  ℕ, zero, suc, ◌≤◌, ◌<◌, ◌≡◌, ◌∙◌, false, Option, some, List, length, All, IsByte, arith,
  from_bytes, ok, Result,
}
use audit_mpc_lib.Drng.{Drng, overlaps}
use audit_mpc_lib.Drng.Stream.{IsValid, next_bytes, next_bytes-IsValid, length-next_bytes}
use audit_mpc_lib.Drng.Read.{read-next_bytes}
use audit_mpc_lib.Zkp.{ZkpStatus}
use audit_mpc_lib.DhLog.{cmp_uint256, e_loop}
use audit_mpc_lib.DhLog.Compare.{cmp_uint256-compare}

compare_below : (x y : ℕ) → x < y → compare x y ≡ Ordering.lt
compare_below x y h = ground arith

compare_above :
    {A : Type 0} (x y : ℕ) (a b : A)
    → y ≤ x
    → (elim (compare x y) as (λ _. A) [ Ordering.lt ↦ a | Ordering.eq ↦ b | Ordering.gt ↦ b ]) ≡ b
compare_above x y a b h = ground arith

chosen_len :
    (c : Ordering) (now e : List ℕ) (later : Option (Result ZkpStatus (List ℕ)))
    → length now ≡ 32
    → (later ≡ some (ok e) → length e ≡ 32)
    → (elim c as (λ _. Option (Result ZkpStatus (List ℕ))) [
      | Ordering.lt ↦ some (ok now)
      | Ordering.eq ↦ later
      | Ordering.gt ↦ later
    ])
      ≡ some (ok e)
    → length e ≡ 32
chosen_len Ordering.lt now e later hn hl h = cc
chosen_len Ordering.eq now e later hn hl h = hl h
chosen_len Ordering.gt now e later hn hl h = hl h

-- A draw that ends fills the scalar.
pub e_loop_len :
    (sha512 : List ℕ → List ℕ)
    → ((m : List ℕ) → length (sha512 m) ≡ 64)
    → (rng_address e_address : ℕ) → overlaps rng_address e_address 32 ≡ false
    → (order : List ℕ) (fuel : ℕ) (rng : Drng) (e : List ℕ) → IsValid rng
    → e_loop sha512 rng_address e_address fuel rng order ≡ some (ok e)
    → length e ≡ 32
unfolding e_loop
e_loop_len sha512 len r a apart order zero rng e v h = cc
e_loop_len sha512 len r a apart order (suc fuel) rng e v h =
    chosen_len (cmp_uint256 (next_bytes sha512 32 rng).0 order) (next_bytes sha512 32 rng).0 e
      (e_loop sha512 r a fuel (next_bytes sha512 32 rng).1 order) (length-next_bytes sha512 32 rng)
      (e_loop_len sha512 len r a apart order fuel (next_bytes sha512 32 rng).1 e
        (next_bytes-IsValid sha512 len 32 rng v))
      (rw (read-next_bytes sha512 len r a 32 rng v (omega arith) apart, e_loop) at h)

module _ (sha512 : List ℕ → List ℕ) where
  -- The state behind the first `k` blocks of 32 bytes, and the block that follows.
  unfoldable pub after_blocks : ℕ → Drng → Drng
  after_blocks zero rng = rng
  after_blocks (suc k) rng = after_blocks k (next_bytes sha512 32 rng).1

  abbrev pub block : ℕ → Drng → List ℕ
  block k rng = (next_bytes sha512 32 (after_blocks k rng)).0

  module _ (sha512_len : (m : List ℕ) → length (sha512 m) ≡ 64) (rng_address e_address : ℕ)
      (apart : overlaps rng_address e_address 32 ≡ false) (order : List ℕ)
      (order_len : length order ≡ 32) (order_bytes : All IsByte order) where
    cmp_block :
        (e : List ℕ)
        → length e ≡ 32
        → All IsByte e
        → cmp_uint256 e order ≡ compare (from_bytes 0 e) (from_bytes 0 order)
    cmp_block e h b = cmp_uint256-compare e order h order_len b order_bytes

    -- On a well-formed generator of bytes the loop ends with the first block that is below the group
    -- order, if there is one, as soon as it has fuel for the blocks before it and one more.
    pub e_loop-block :
        (k fuel : ℕ) (rng : Drng)
        → IsValid rng
        → k < fuel
        → ((i : ℕ) → i ≤ k → All IsByte (block i rng))
        → ((i : ℕ) → i < k → from_bytes 0 order ≤ from_bytes 0 (block i rng))
        → from_bytes 0 (block k rng) < from_bytes 0 order
        → e_loop sha512 rng_address e_address fuel rng order ≡ some (ok (block k rng))
    unfolding e_loop after_blocks
    e_loop-block k zero rng v h bytes above below = absurd (omega arith)
    e_loop-block zero (suc fuel) rng v h bytes above below = rw (
      read-next_bytes sha512 sha512_len rng_address e_address 32 rng v (omega arith) apart,
      cmp_block (block 0 rng) (length-next_bytes sha512 32 rng) (bytes 0 (omega arith)),
      e_loop,
      compare_below (from_bytes 0 (block 0 rng)) (from_bytes 0 order) below,
    )
    e_loop-block (suc k) (suc fuel) rng v h bytes above below =
        let rest =
          e_loop-block k fuel (next_bytes sha512 32 rng).1
            (next_bytes-IsValid sha512 sha512_len 32 rng v) (omega arith)
            (λ i l. bytes (suc i) (omega arith)) (λ i l. above (suc i) (omega arith)) below in
        rw
          (
            read-next_bytes sha512 sha512_len rng_address e_address 32 rng v (omega arith) apart,
            cmp_block (block 0 rng) (length-next_bytes sha512 32 rng) (bytes 0 (omega arith)),
            e_loop,
          )
          (compare_above (from_bytes 0 (block 0 rng)) (from_bytes 0 order) _ _
              (above 0 (omega arith))
            ∙ rest)
