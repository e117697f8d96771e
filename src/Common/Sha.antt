-- ===== src/Common/Sha.antt =====
-- OpenSSL's SHA256 over a context. The text that is fed in may come in any pieces.
use Prim.Native.Nat.{ℕ}
use mathlib.Core.Path.{◌≡◌}
use mathlib.Core.List.{List, ◌++◌}
use audit_mpc_lib.Common.Lists.{length}

pub record Sha256 : Type 1 where
  pub Ctx : Type 0
  pub init : Ctx
  pub update : Ctx → List ℕ → Ctx
  pub final : Ctx → List ℕ
  pub update-update : (c : Ctx) (a b : List ℕ) → update (update c a) b ≡ update c (a ++ b)
  pub final_len : (c : Ctx) → length (final c) ≡ 32

module _ (sha : Sha256) where
  open sha use {init, update, final}

  -- The hash of a whole text.
  unfoldable pub sha256 : List ℕ → List ℕ
  sha256 m = final (update init m)

  -- The hash of a text in two pieces.
  pub sha256_two : (a b : List ℕ) → final (update (update init a) b) ≡ sha256 (a ++ b)
  unfolding sha256
  sha256_two a b = λ i. final (sha.update-update init a b i)
