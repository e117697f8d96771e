-- ===== src/Keccak/Digest.antt =====
-- The digest of a message, and that `keccak1600_final` computes it from any pieces.
use Prim.Native.Nat.{bit_or}
use Prim.Native.Nat.add
use native.Mathlib.Nat.{add-zero}
use mathlib.Core.List.{flatten}
use audit_mpc_lib.Common.{
  ℕ, zero, suc, ◌+◌, ◌-◌, ◌≤◌, ◌<◌, ◌≡◌, refl, sym, ap, ◌∙◌, List, [], ◌∷◌, ◌++◌, length, take,
  drop, arith, append-nil, append_assoc, length-append, length-take, take-append, replicate, get_or,
  length-replicate, some, ◌/◌,
}
use audit_mpc_lib.Keccak.{
  Keccak, write, buf_size, keccak1600_init, keccak1600_update, absorb_input, padded,
  keccak1600_final, rate,
}
use audit_mpc_lib.Keccak.Sponge.{Absorbs}
use audit_mpc_lib.Keccak.Buffer.{Holds, update-Holds}

-- The padding of `k` bytes: the pad byte first, and the top bit of the last.
abbrev pub pad_bytes : ℕ → ℕ → List ℕ
pad_bytes pad zero = []
pad_bytes pad (suc zero) = bit_or pad 0x80 ∷ []
pad_bytes pad (suc (suc j)) = pad ∷ (replicate j 0 ++ (0x80 ∷ []))

length-pad_bytes : (pad k : ℕ) → length (pad_bytes pad k) ≡ k
length-pad_bytes pad zero = refl
length-pad_bytes pad (suc zero) = refl
length-pad_bytes pad (suc (suc j)) =
    omega (arith, length-append {A = ℕ} (replicate j 0) (0x80 ∷ []), length-replicate {A = ℕ} j 0)

-- Writes and reads behind a front of known length.
write-append :
    (n j : ℕ) (bytes front rest : List ℕ)
    → length front ≡ n
    → write (n + j) bytes (front ++ rest) ≡ front ++ write j bytes rest
write-append zero j bytes [] rest h = rw add.zero
write-append zero j bytes (x ∷ front) rest h = absurd (omega arith)
write-append (suc n) j bytes [] rest h = absurd (omega arith)
write-append (suc n) j bytes (x ∷ front) rest h =
    rw (add.suc n j, add.suc (n + j) (length bytes))
      (ap (λ l. x ∷ l) (write-append n j bytes front rest (omega arith)))

get_or-append :
    (n j : ℕ) (front rest : List ℕ) (d : ℕ)
    → length front ≡ n
    → get_or (front ++ rest) (n + j) d ≡ get_or rest j d
get_or-append zero j [] rest d h = rw add.zero
get_or-append zero j (x ∷ front) rest d h = absurd (omega arith)
get_or-append (suc n) j [] rest d h = absurd (omega arith)
get_or-append (suc n) j (x ∷ front) rest d h =
    rw (add.suc n j) (get_or-append n j front rest d (omega arith))

-- The last of `j + 1` bytes of a buffer.
write_last :
    (j x : ℕ) (zeros rest : List ℕ) (y : ℕ)
    → length zeros ≡ j
    → write j (x ∷ []) (zeros ++ (y ∷ rest)) ≡ zeros ++ (x ∷ rest)
write_last zero x [] rest y h = refl
write_last zero x (z ∷ zeros) rest y h = absurd (omega arith)
write_last (suc j) x [] rest y h = absurd (omega arith)
write_last (suc j) x (z ∷ zeros) rest y h =
    rw (add.suc j 1) (ap (λ l. z ∷ l) (write_last j x zeros rest y (omega arith)))

replicate_snoc : (j : ℕ) (rest : List ℕ) → replicate (suc j) 0 ++ rest ≡ replicate j 0 ++ (0 ∷ rest)
replicate_snoc zero rest = refl
replicate_snoc (suc j) rest = ap (λ l. 0 ∷ l) (replicate_snoc j rest)

get_or_last :
    (j : ℕ) (zeros rest : List ℕ) (y d : ℕ)
    → length zeros ≡ j
    → get_or (zeros ++ (y ∷ rest)) j d ≡ y
get_or_last zero [] rest y d h = refl
get_or_last zero (z ∷ zeros) rest y d h = absurd (omega arith)
get_or_last (suc j) [] rest y d h = absurd (omega arith)
get_or_last (suc j) (z ∷ zeros) rest y d h = get_or_last j zeros rest y d (omega arith)

-- The two pad bytes over a run of zeros.
mark_zeros :
    (pad k : ℕ) (rest : List ℕ)
    → let marked = write 0 (pad ∷ []) (replicate (suc k) 0 ++ rest) in
      write k (bit_or (get_or marked k 0) 0x80 ∷ []) marked ≡ pad_bytes pad (suc k) ++ rest
mark_zeros pad zero rest = refl
mark_zeros pad (suc j) rest =
    let front = pad ∷ replicate j 0 in
    let len : length front ≡ suc j = ap suc (length-replicate {A = ℕ} j 0) in
    ap (λ m. write (suc j) (bit_or (get_or m (suc j) 0) 0x80 ∷ []) m)
      (ap (λ l. pad ∷ l) (replicate_snoc j rest))
    ∙ ap (λ b. write (suc j) (bit_or b 0x80 ∷ []) (front ++ (0 ∷ rest)))
        (get_or_last (suc j) front rest 0 0 len)
    ∙ write_last (suc j) 0x80 front rest 0 len
    ∙ ap (λ l. pad ∷ l) (sym (append_assoc (replicate j 0) (0x80 ∷ []) rest))

pad_writes :
    (pad num last k : ℕ) (front rest : List ℕ)
    → length front ≡ num
    → last ≡ num + k
    → let marked = write num (pad ∷ []) (front ++ (replicate (suc k) 0 ++ rest)) in
      write last (bit_or (get_or marked last 0) 0x80 ∷ []) marked
      ≡ front ++ (pad_bytes pad (suc k) ++ rest)
pad_writes pad num last k front rest h e =
    let zeros = replicate (suc k) 0 ++ rest in
    let marked = write 0 (pad ∷ []) zeros in
    let over = λ (m : List ℕ). write last (bit_or (get_or m last 0) 0x80 ∷ []) m in
    ap (λ i. over (write i (pad ∷ []) (front ++ zeros))) (sym (add-zero num))
    ∙ ap over (write-append num 0 (pad ∷ []) front zeros h)
    ∙ ap (λ i. write i (bit_or (get_or (front ++ marked) i 0) 0x80 ∷ []) (front ++ marked)) e
    ∙ ap (λ b. write (num + k) (bit_or b 0x80 ∷ []) (front ++ marked))
        (get_or-append num k front marked 0 h)
    ∙ write-append num k (bit_or (get_or marked k 0) 0x80 ∷ []) front marked h
    ∙ ap (λ l. front ++ l) (mark_zeros pad k rest)

module _ {S : Type 0} where
  -- The pad bytes stand behind the buffered input.
  padded_block :
      (ctx : Keccak S) (k : ℕ)
      → ctx.num + suc k ≡ ctx.block_size
      → ctx.block_size ≤ length ctx.buf
      → take ctx.block_size (padded ctx) ≡ take ctx.num ctx.buf ++ pad_bytes ctx.pad (suc k)
  unfolding padded
  padded_block ctx k e h =
      let front = take ctx.num ctx.buf in
      let zeros : List ℕ = replicate (ctx.block_size - ctx.num) 0 in
      let rest = drop (ctx.num + length zeros) ctx.buf in
      let len : length front ≡ ctx.num = length-take ctx.num ctx.buf ∙ omega arith in
      let count : ctx.block_size - ctx.num ≡ suc k = omega arith in
      let last = ctx.block_size - 1 in
      let over = λ (m : List ℕ). write last (bit_or (get_or m last 0) 0x80 ∷ []) m in
      ap
        (λ c.
          take ctx.block_size
            (over (write ctx.num (ctx.pad ∷ []) (front ++ (replicate c 0 ++ rest)))))
        count
      ∙ ap (take ctx.block_size) (pad_writes ctx.pad ctx.num last k front rest len (omega arith))
      ∙ ap (take ctx.block_size) (sym (append_assoc front (pad_bytes ctx.pad (suc k)) rest))
      ∙ take-append ctx.block_size (front ++ pad_bytes ctx.pad (suc k)) rest (
          omega (
            arith,
            length-append front (pad_bytes ctx.pad (suc k)),
            length-pad_bytes ctx.pad (suc k),
          ))

module _ {S : Type 0} (absorb : S → List ℕ → ℕ → S × ℕ) (start : S) where
  -- The sponge hash with 10*1 padding: the message and its padding are absorbed at once, and the
  -- digest is squeezed out.
  pub digest : (S → ℕ → ℕ → List ℕ) → ℕ → ℕ → ℕ → List ℕ → List ℕ
  digest squeeze pad md r m =
      squeeze (absorb start (m ++ pad_bytes pad (r - (absorb start m r).1)) r).0 md r

  final-digest :
      (squeeze : S → ℕ → ℕ → List ℕ) (ctx : Keccak S) (m : List ℕ)
      → Absorbs absorb ctx.block_size
      → Holds absorb start m ctx
      → keccak1600_final absorb squeeze ctx ≡ digest squeeze ctx.pad ctx.md_size ctx.block_size m
  unfolding keccak1600_final digest
  final-digest squeeze ctx m law h =
      let r = ctx.block_size in
      let k = r - ctx.num - 1 in
      let pad = pad_bytes ctx.pad (suc k) in
      let rem : absorb start m r ≡ (ctx.state, length h.tail) =
        ap (λ l. absorb start l r) h.split
        ∙ law.resume start ctx.state h.front h.tail h.absorbed
        ∙ law.short ctx.state h.tail (omega arith) in
      let count : r - (absorb start m r).1 ≡ suc k = omega (arith, ap (λ p. p.1) rem) in
      let block = padded_block ctx k (omega arith) h.block_le ∙ ap (λ l. l ++ pad) h.buffered in
      let whole =
        ap (λ l. absorb start (l ++ pad) r) h.split
        ∙ ap (λ l. absorb start l r) (append_assoc h.front h.tail pad)
        ∙ law.resume start ctx.state h.front (h.tail ++ pad) h.absorbed in
      ap (λ b. squeeze (absorb ctx.state b r).0 ctx.md_size r) block
      ∙ ap (λ p. squeeze p.0 ctx.md_size r) (sym whole)
      ∙ ap (λ c. squeeze (absorb start (m ++ pad_bytes ctx.pad c) r).0 ctx.md_size r) (sym count)

  -- The calls of `keccak1600_update` on the pieces of a message, in order.
  unfoldable pub updates : Keccak S → List (List ℕ) → Keccak S
  updates ctx [] = ctx
  updates ctx (piece ∷ pieces) = updates (keccak1600_update absorb ctx piece) pieces

  update_fields :
      (ctx : Keccak S) (inp : List ℕ)
      → ((keccak1600_update absorb ctx inp).pad ≡ ctx.pad)
        × ((keccak1600_update absorb ctx inp).md_size ≡ ctx.md_size)
        × ((keccak1600_update absorb ctx inp).block_size ≡ ctx.block_size)
  unfolding keccak1600_update absorb_input
  update_fields ctx [] = (refl, refl, refl)
  update_fields ctx (b ∷ bs) = ground arith

  updates-digest :
      (squeeze : S → ℕ → ℕ → List ℕ) (pieces : List (List ℕ)) (ctx : Keccak S) (m : List ℕ)
      (pad md r : ℕ)
      → Absorbs absorb r
      → (ctx.pad ≡ pad) × (ctx.md_size ≡ md) × (ctx.block_size ≡ r)
      → Holds absorb start m ctx
      → keccak1600_final absorb squeeze (updates ctx pieces)
        ≡ digest squeeze pad md r (m ++ flatten pieces)
  unfolding updates digest flatten
  updates-digest squeeze [] ctx m pad md r law f h =
      let law' : Absorbs absorb ctx.block_size = rw f.2 law in
      final-digest squeeze ctx m law' h ∙ rw (f.0, f.1, f.2, append-nil)
  updates-digest squeeze (p ∷ ps) ctx m pad md r law f h =
      let law' : Absorbs absorb ctx.block_size = rw f.2 law in
      let g = update_fields ctx p in
      updates-digest squeeze ps (keccak1600_update absorb ctx p) (m ++ p) pad md r law
        (g.0 ∙ f.0, g.1 ∙ f.1, g.2 ∙ f.2) (update-Holds absorb start ctx m p law' h)
      ∙ ap (digest squeeze pad md r) (append_assoc m p (flatten ps))

  init_fields :
      (md_bits pad : ℕ) (old ctx : Keccak S)
      → keccak1600_init start md_bits pad old ≡ some ctx
      → (ctx.state ≡ start)
        × (ctx.num ≡ 0)
        × (ctx.buf ≡ old.buf)
        × (rate md_bits ≤ buf_size)
        × ((ctx.pad ≡ pad) × (ctx.md_size ≡ md_bits / 8) × (ctx.block_size ≡ rate md_bits))
  unfolding keccak1600_init
  init_fields md_bits pad old ctx e = ground arith

  pub init-Holds :
      (md_bits pad : ℕ) (old ctx : Keccak S)
      → length old.buf ≡ buf_size
      → keccak1600_init start md_bits pad old ≡ some ctx
      → Absorbs absorb (rate md_bits)
      → Holds absorb start [] ctx
  init-Holds md_bits pad old ctx len e law =
      let f = init_fields md_bits pad old ctx e in
      let r = f.4.2 in
      let pos : 0 < rate md_bits = omega (arith, law.rem_lt start []) in
      record {
        front = [];
        tail = [];
        split = refl;
        absorbed = rw (r, f.0) (law.short start [] pos);
        buffered = ap (λ n. take n ctx.buf) f.1;
        tail_len = sym f.1;
        num_lt = rw (f.1, r) pos;
        block_le = rw (r, f.2, len) f.3;
      }

  -- A message given in any pieces, also empty ones, gets the digest of the whole message: from
  -- `keccak1600_init` over any number of updates to `keccak1600_final`, at a rate that SHA3_absorb takes.
  pub init_updates-digest :
      (squeeze : S → ℕ → ℕ → List ℕ) (md_bits pad : ℕ) (old ctx : Keccak S) (pieces : List (List ℕ))
      → length old.buf ≡ buf_size
      → keccak1600_init start md_bits pad old ≡ some ctx
      → Absorbs absorb (rate md_bits)
      → keccak1600_final absorb squeeze (updates ctx pieces)
        ≡ digest squeeze pad (md_bits / 8) (rate md_bits) (flatten pieces)
  init_updates-digest squeeze md_bits pad old ctx pieces len e law =
      updates-digest squeeze pieces ctx [] pad (md_bits / 8) (rate md_bits) law
        (init_fields md_bits pad old ctx e).4 (init-Holds md_bits pad old ctx len e law)
