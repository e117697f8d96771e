-- ===== src/Keccak/Sponge.antt =====
-- What the sponge relies on: SHA3_absorb takes in the whole blocks of its input, one after the
-- other, and returns the number of bytes that it left.
use audit_mpc_lib.Common.{ℕ, ◌-◌, ◌≤◌, ◌<◌, ◌≡◌, List, ◌++◌, length, take}

pub record Absorbs {S : Type 0} (absorb : S → List ℕ → ℕ → S × ℕ) (r : ℕ) : Type 0 where
  pub rem_lt : (s : S) (m : List ℕ) → (absorb s m r).1 < r
  pub rem_le : (s : S) (m : List ℕ) → (absorb s m r).1 ≤ length m
  pub short : (s : S) (m : List ℕ) → length m < r → absorb s m r ≡ (s, length m)
  -- The bytes that are left play no part.
  pub whole :
      (s : S) (m : List ℕ)
      → absorb s (take (length m - (absorb s m r).1) m) r ≡ ((absorb s m r).0, 0)
  -- On a block boundary the next input goes on from the state.
  pub resume : (s t : S) (m n : List ℕ) → absorb s m r ≡ (t, 0) → absorb s (m ++ n) r ≡ absorb t n r
  pub one_block : (s : S) (m : List ℕ) → length m ≡ r → (absorb s m r).1 ≡ 0
