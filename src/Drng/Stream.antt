-- ===== src/Drng/Stream.antt =====
-- The generator is a byte stream: a read of any length is so many single bytes.
use Prim.Native.Nat.add
use audit_mpc_lib.Common.{
  ℕ, zero, suc, ◌+◌, ◌-◌, ◌/◌, ◌≤◌, ◌<◌, ◌≡◌, refl, ap, ◌∙◌, some, List, [], ◌∷◌, ◌++◌, ltb,
  if◌then◌else◌, take, drop, length, get_or, arith, append_assoc, length-take, length-drop,
  take-drop-suc, Bool-cases, ltb→lt, inl, inr,
}
use audit_mpc_lib.Drng.{Drng, refill, read_loop, half_digest}

-- What every operation keeps: both halves have 32 bytes, and `pos` is inside the first or at its end.
pub record IsValid (rng : Drng) : Type 0 where
  pub block_len : length rng.block ≡ half_digest
  pub seed_len : length rng.seed ≡ half_digest
  pub pos_le : rng.pos ≤ half_digest

module _ (sha512 : List ℕ → List ℕ) where
  -- One byte of the stream.
  abbrev pub next_byte : Drng → ℕ × Drng
  next_byte rng =
      if ltb rng.pos half_digest
      then (get_or rng.block rng.pos 0, record rng { pos = rng.pos + 1 })
      else (get_or (refill sha512 rng.seed).block 0 0, record (refill sha512 rng.seed) { pos = 1 })

  pub next_bytes : ℕ → Drng → List ℕ × Drng
  next_bytes zero rng = ([], rng)
  next_bytes (suc n) rng =
      let (b, rng') = next_byte rng in let (bs, rng'') = next_bytes n rng' in (b ∷ bs, rng'')

  pub next_bytes-suc :
      (n : ℕ) (rng : Drng)
      → next_bytes (suc n) rng ≡ (
        (next_byte rng).0 ∷ (next_bytes n (next_byte rng).1).0,
        (next_bytes n (next_byte rng).1).1,
      )
  unfolding next_bytes
  next_bytes-suc n rng = refl

  pub next_bytes-one : (rng : Drng) → next_bytes 1 rng ≡ ((next_byte rng).0 ∷ [], (next_byte rng).1)
  unfolding next_bytes
  next_bytes-one rng = refl

  pub next_bytes-add :
      (m n : ℕ) (rng : Drng)
      → next_bytes (m + n) rng ≡ (
        (next_bytes m rng).0 ++ (next_bytes n (next_bytes m rng).1).0,
        (next_bytes n (next_bytes m rng).1).1,
      )
  unfolding next_bytes
  next_bytes-add zero n rng = ap (λ k. next_bytes k rng) (add.zero n)
  next_bytes-add (suc m) n rng =
      ap (λ k. next_bytes k rng) (add.suc m n) ∙ rw (next_bytes-add m n (next_byte rng).1)

  -- Bytes that are in the block already.
  next_bytes_inside :
      (n : ℕ) (rng : Drng)
      → length rng.block ≡ half_digest
      → rng.pos + n ≤ half_digest
      → next_bytes n rng ≡ (take n (drop rng.pos rng.block), record rng { pos = rng.pos + n })
  unfolding next_bytes
  next_bytes_inside zero rng hb h = ground arith
  next_bytes_inside (suc n) rng hb h = ground (
    arith,
    take-drop-suc n rng.pos rng.block 0,
    next_bytes_inside n (record rng { pos = rng.pos + 1 }) hb,
  )

  -- Past the end of the block the stream goes on with the next block.
  next_bytes-refill :
      (n : ℕ) (rng : Drng)
      → rng.pos ≡ half_digest
      → next_bytes (suc n) rng ≡ next_bytes (suc n) (refill sha512 rng.seed)
  unfolding next_bytes
  next_bytes-refill n rng h = ground arith

  -- A read past the end of the block is the rest of the block and a read from the next one.
  next_bytes_across :
      (len : ℕ) (rng : Drng)
      → length rng.block ≡ half_digest
      → rng.pos ≤ half_digest
      → half_digest - rng.pos < len
      → let size = half_digest - rng.pos in
        let (bs, rng') = next_bytes (len - size) (refill sha512 rng.seed) in
        next_bytes len rng ≡ (take size (drop rng.pos rng.block) ++ bs, rng')
  next_bytes_across len rng hb hp h =
      let size = half_digest - rng.pos in
      let more = len - size - 1 in
      let e : len ≡ size + suc more = omega arith in
      let e' : len - size ≡ suc more = omega arith in
      let inside = next_bytes_inside size rng hb (omega arith) in
      let past = next_bytes-refill more (record rng { pos = rng.pos + size }) (omega arith) in
      ap (λ k. next_bytes k rng) e ∙ next_bytes-add size (suc more) rng ∙ rw (inside, past, ← e')

  module _ (sha512_len : (m : List ℕ) → length (sha512 m) ≡ 64) where
    pub refill-IsValid : (m : List ℕ) → IsValid (refill sha512 m)
    refill-IsValid m = record {
      block_len = length-take half_digest (sha512 m) ∙ omega (arith, sha512_len m);
      seed_len = length-drop half_digest (sha512 m) ∙ omega (arith, sha512_len m);
      pos_le = omega arith;
    }

    -- With enough fuel the loop appends exactly the next `len` bytes of the stream.
    pub read_loop-next_bytes :
        (fuel len : ℕ) (rng : Drng) (out : List ℕ)
        → IsValid rng
        → len + rng.pos / half_digest < fuel
        → read_loop sha512 fuel rng len out
          ≡ some (out ++ (next_bytes len rng).0, (next_bytes len rng).1)
    unfolding read_loop
    read_loop-next_bytes zero len rng out v h = absurd (omega arith)
    read_loop-next_bytes (suc fuel) len rng out v h =
        let size = half_digest - rng.pos in
        let block = take size (drop rng.pos rng.block) in
        elim (Bool-cases (ltb size len)) [
          | inl more ↦ rw (
            more,
            read_loop-next_bytes fuel (len - size) (refill sha512 rng.seed) (out ++ block)
                (refill-IsValid rng.seed) (ground arith),
            next_bytes_across len rng v.block_len v.pos_le (ltb→lt _ _ more),
            append_assoc,
          )
          | inr last ↦ rw (last, next_bytes_inside len rng v.block_len (ground arith))
        ]

    -- Single bytes keep the generator well formed.
    pub next_bytes-IsValid : (n : ℕ) (rng : Drng) → IsValid rng → IsValid (next_bytes n rng).1
    unfolding next_bytes
    next_bytes-IsValid zero rng v = v
    next_bytes-IsValid (suc n) rng v = elim (Bool-cases (ltb rng.pos half_digest)) [
      | inl inside ↦ rw inside (
          next_bytes-IsValid n (record rng { pos = rng.pos + 1 })
            (record { block_len = v.block_len; seed_len = v.seed_len; pos_le = ground arith }))
      | inr past ↦
          let u = refill-IsValid rng.seed in
          rw past (
            next_bytes-IsValid n (record (refill sha512 rng.seed) { pos = 1 })
              (record { block_len = u.block_len; seed_len = u.seed_len; pos_le = omega arith }))
    ]

  pub length-next_bytes : (n : ℕ) (rng : Drng) → length (next_bytes n rng).0 ≡ n
  unfolding next_bytes
  length-next_bytes zero rng = refl
  length-next_bytes (suc n) rng = ap suc (length-next_bytes n (next_byte rng).1)
