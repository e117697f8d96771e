-- ===== src/Keccak.antt =====
-- src/common/crypto/keccak1600/keccak1600.c: the buffered sponge over SHA3_absorb and SHA3_squeeze,
-- which are OpenSSL's and parameters here, with the type of the 25-word state `A`.
pub mod Sponge
pub mod Buffer
pub mod Digest
mod Tests
use Prim.Native.Nat.{bit_or}
use audit_mpc_lib.Common.{
  ℕ, zero, suc, ◌+◌, ◌-◌, ◌*◌, ◌/◌, ◌%◌, ◌^◌, Bool, Option, none, some, List, [], ◌∷◌, ◌++◌, ltb,
  leb, ◌==◌, if◌then◌else◌, take, drop, length, replicate, get_or,
}

-- `KECCAK1600_WIDTH` and `sizeof(ctx->buf)`
abbrev pub width : ℕ
width = 1600

abbrev pub buf_size : ℕ
buf_size = 168

pub record Keccak (S : Type 0) : Type 0 where
  pub state : S
  pub block_size : ℕ
  pub md_size : ℕ
  pub num : ℕ
  pub buf : List ℕ
  pub pad : ℕ

-- `memcpy(buf + at, bytes, …)`
abbrev pub write : ℕ → List ℕ → List ℕ → List ℕ
write at bytes buf = take at buf ++ (bytes ++ drop (at + length bytes) buf)

-- `(KECCAK1600_WIDTH - md_size_in_bits * 2) / 8` in `size_t`, which wraps
abbrev pub rate : ℕ → ℕ
rate md_bits = (width + 2 ^ 64 - md_bits * 2 % 2 ^ 64) % 2 ^ 64 / 8

module _ {S : Type 0} where
  -- `zero_state` is the state of all zero words; the buffer keeps what it held.
  unfoldable pub keccak1600_init : S → ℕ → ℕ → Keccak S → Option (Keccak S)
  keccak1600_init zero_state md_bits pad ctx =
      if leb (rate md_bits) buf_size
      then some (record {
        state = zero_state;
        block_size = rate md_bits;
        md_size = md_bits / 8;
        num = 0;
        buf = ctx.buf;
        pad = pad;
      })
      else none

  -- The buffer that `keccak1600_final` absorbs: zeros behind the input, then the two pad bytes.
  unfoldable pub padded : Keccak S → List ℕ
  padded ctx =
      let zeroed = write ctx.num (replicate (ctx.block_size - ctx.num) 0) ctx.buf in
      let marked = write ctx.num (ctx.pad ∷ []) zeroed in
      let last = ctx.block_size - 1 in write last (bit_or (get_or marked last 0) 0x80 ∷ []) marked

  module _ (absorb : S → List ℕ → ℕ → S × ℕ) where
    -- The end of `keccak1600_update`, where the buffer is empty.
    unfoldable pub absorb_input : Keccak S → List ℕ → Keccak S
    absorb_input ctx inp =
        let (state, rem) =
          if leb ctx.block_size (length inp)
          then absorb ctx.state inp ctx.block_size
          else (ctx.state, length inp) in
        if rem == 0 then record ctx { state = state } else record ctx {
          state = state;
          num = rem;
          buf = write 0 (drop (length inp - rem) inp) ctx.buf;
        }

    unfoldable pub keccak1600_update : Keccak S → List ℕ → Keccak S
    keccak1600_update ctx [] = ctx
    keccak1600_update ctx (b ∷ bs) =
        let inp = b ∷ bs in
        let rem = ctx.block_size - ctx.num in
        let filled = write ctx.num (take rem inp) ctx.buf in
        if ctx.num == 0
        then absorb_input ctx inp
        else if ltb (length inp) rem
        then record ctx { buf = write ctx.num inp ctx.buf; num = ctx.num + length inp }
        else absorb_input
            (record ctx {
              state = (absorb ctx.state (take ctx.block_size filled) ctx.block_size).0;
              num = 0;
              buf = filled;
            })
            (drop rem inp)

    unfoldable pub keccak1600_final : (S → ℕ → ℕ → List ℕ) → Keccak S → List ℕ
    keccak1600_final squeeze ctx =
        squeeze (absorb ctx.state (take ctx.block_size (padded ctx)) ctx.block_size).0 ctx.md_size
          ctx.block_size
