-- ===== src/Keccak/Buffer.antt =====
-- The context stands for the bytes given so far, in whatever pieces they came.
use audit_mpc_lib.Common.{
  ℕ, ◌+◌, ◌-◌, ◌≤◌, ◌<◌, ◌≡◌, refl, sym, ap, ◌∙◌, List, [], ◌∷◌, ◌++◌, length, take, drop, arith,
  append-nil, append_assoc, length-append, length-take, length-drop, take-append-drop, take-append,
  Bool-cases, inl, inr, ltb, ◌==◌, ltb→lt, ==_iff, nil_of_length, if◌then◌else◌,
}
use audit_mpc_lib.Keccak.{Keccak, write, absorb_input, keccak1600_update}
use audit_mpc_lib.Keccak.Sponge.{Absorbs}

-- What stands before the end of a write: the old front, and what was written.
pub take-write :
    (at n : ℕ) (bytes buf : List ℕ)
    → at ≤ length buf
    → at + length bytes ≡ n
    → take n (write at bytes buf) ≡ take at buf ++ bytes
take-write at n bytes buf h e =
    ap (take n) (sym (append_assoc (take at buf) bytes (drop (at + length bytes) buf)))
    ∙ take-append n (take at buf ++ bytes) (drop (at + length bytes) buf)
        (omega (arith, length-append (take at buf) bytes, length-take at buf))

pub length-write :
    (at : ℕ) (bytes buf : List ℕ)
    → at + length bytes ≤ length buf
    → length (write at bytes buf) ≡ length buf
length-write at bytes buf h = omega (
  arith,
  length-append (take at buf) (bytes ++ drop (at + length bytes) buf),
  length-append bytes (drop (at + length bytes) buf),
  length-take at buf,
  length-drop (at + length bytes) buf,
)

-- The filled block moves from the input to what is behind it.
regroup :
    {m block : List ℕ} (inp front tail : List ℕ) (k : ℕ)
    → m ≡ front ++ tail
    → block ≡ tail ++ take k inp
    → m ++ inp ≡ (front ++ block) ++ drop k inp
regroup inp front tail k p q =
    rw (p, q)
      (append_assoc front tail inp
        ∙ ap (λ l. front ++ (tail ++ l)) (sym (take-append-drop k inp))
        ∙ ap (λ l. front ++ l) (sym (append_assoc tail (take k inp) (drop k inp)))
        ∙ sym (append_assoc front (tail ++ take k inp) (drop k inp)))

module _ {S : Type 0} (absorb : S → List ℕ → ℕ → S × ℕ) (start : S) where
  -- The context holds `m`: whole blocks are in the state, the rest is in the buffer.
  pub record Holds (m : List ℕ) (ctx : Keccak S) : Type 0 where
    pub front : List ℕ
    pub tail : List ℕ
    pub split : m ≡ front ++ tail
    pub absorbed : absorb start front ctx.block_size ≡ (ctx.state, 0)
    pub buffered : take ctx.num ctx.buf ≡ tail
    pub tail_len : length tail ≡ ctx.num
    pub num_lt : ctx.num < ctx.block_size
    pub block_le : ctx.block_size ≤ length ctx.buf

  module _ (ctx : Keccak S) (law : Absorbs absorb ctx.block_size) where
    module _ (front : List ℕ) (absorbed : absorb start front ctx.block_size ≡ (ctx.state, 0))
        (fits : ctx.block_size ≤ length ctx.buf) where
      module _ (inp : List ℕ) (t : S) (rem : ℕ)
          (e : absorb ctx.state inp ctx.block_size ≡ (t, rem)) where
        taken : List ℕ
        taken = take (length inp - rem) inp

        left : List ℕ
        left = drop (length inp - rem) inp

        absorbed_taken : absorb start (front ++ taken) ctx.block_size ≡ (t, 0)
        unfolding taken
        absorbed_taken =
            law.resume start ctx.state front taken absorbed ∙ rw e at (law.whole ctx.state inp)

        parts_append : front ++ inp ≡ (front ++ taken) ++ left
        unfolding taken left
        parts_append =
            ap (λ l. front ++ l) (sym (take-append-drop (length inp - rem) inp))
            ∙ sym (append_assoc front taken left)

        length-left : length left ≡ rem
        unfolding left
        length-left =
            let le = law.rem_le ctx.state inp in
            omega (arith, length-drop (length inp - rem) inp, ap (λ r. r.1) e)

        rem_small : rem < ctx.block_size
        rem_small = omega (arith, law.rem_lt ctx.state inp, ap (λ r. r.1) e)

        -- With the buffer empty, the whole blocks of the input go into the state.
        absorb_input_parts : absorb_input absorb ctx inp ≡ (
            if rem == 0
            then record ctx { state = t }
            else record ctx { state = t; num = rem; buf = write 0 left ctx.buf })
        unfolding absorb_input left
        absorb_input_parts = ground (arith, law.short ctx.state inp)

        absorb_input-Holds : ctx.num ≡ 0 → Holds (front ++ inp) (absorb_input absorb ctx inp)
        absorb_input-Holds empty = elim (Bool-cases (rem == 0)) [
          | inl none_left ↦
              rw (absorb_input_parts, none_left)
                (record {
                  front = front ++ taken;
                  tail = left;
                  split = parts_append;
                  absorbed = absorbed_taken;
                  buffered =
                      ap (λ k. take k ctx.buf) empty
                      ∙ nil_of_length left (omega (arith, length-left, (==_iff rem 0).0 none_left));
                  tail_len = omega (arith, length-left, (==_iff rem 0).0 none_left);
                  num_lt = omega (arith, rem_small);
                  block_le = fits;
                })
          | inr some_left ↦
              rw (absorb_input_parts, some_left)
                (record {
                  front = front ++ taken;
                  tail = left;
                  split = parts_append;
                  absorbed = absorbed_taken;
                  buffered =
                      take-write 0 rem left ctx.buf (omega arith) (omega (arith, length-left));
                  tail_len = length-left;
                  num_lt = rem_small;
                  block_le =
                      omega (
                        arith,
                        length-write 0 left ctx.buf (omega (arith, length-left, rem_small)),
                      );
                })
        ]

  -- Input that does not fill the block stays in the buffer.
  buffer-Holds :
      (ctx : Keccak S) (m inp : List ℕ)
      → Holds m ctx
      → length inp < ctx.block_size - ctx.num
      → Holds
          (m ++ inp)
          (record ctx { buf = write ctx.num inp ctx.buf; num = ctx.num + length inp })
  buffer-Holds ctx m inp h short = record {
    front = h.front;
    tail = h.tail ++ inp;
    split = ap (λ l. l ++ inp) h.split ∙ append_assoc h.front h.tail inp;
    absorbed = h.absorbed;
    buffered =
        take-write ctx.num (ctx.num + length inp) inp ctx.buf (omega (arith, h.block_le)) refl
        ∙ ap (λ l. l ++ inp) h.buffered;
    tail_len = omega (arith, length-append h.tail inp, h.tail_len);
    num_lt = omega arith;
    block_le = omega (arith, h.block_le, length-write ctx.num inp ctx.buf);
  }

  -- Input that fills the block: the block goes into the state, and the rest follows.
  fill-Holds :
      (ctx : Keccak S) (m inp : List ℕ)
      → Absorbs absorb ctx.block_size
      → Holds m ctx
      → ctx.block_size - ctx.num ≤ length inp
      → let rem = ctx.block_size - ctx.num in
        let filled = write ctx.num (take rem inp) ctx.buf in
        Holds (m ++ inp) (
          absorb_input absorb
            (record ctx {
              state = (absorb ctx.state (take ctx.block_size filled) ctx.block_size).0;
              num = 0;
              buf = filled;
            })
            (drop rem inp))
  fill-Holds ctx m inp law h long =
      let rem = ctx.block_size - ctx.num in
      let filled = write ctx.num (take rem inp) ctx.buf in
      let block = take ctx.block_size filled in
      let len : length (take rem inp) ≡ rem = length-take rem inp ∙ omega arith in
      let block_eq : block ≡ h.tail ++ take rem inp =
        take-write ctx.num ctx.block_size (take rem inp) ctx.buf (omega arith) (omega arith)
        ∙ ap (λ l. l ++ take rem inp) h.buffered in
      let block_len : length block ≡ ctx.block_size =
        ap length block_eq ∙ omega (arith, length-append h.tail (take rem inp)) in
      let absorbed =
        law.resume start ctx.state h.front block h.absorbed
        ∙ ap (λ k. ((absorb ctx.state block ctx.block_size).0, k))
            (law.one_block ctx.state block block_len) in
      let parts : m ++ inp ≡ (h.front ++ block) ++ drop rem inp =
        regroup inp h.front h.tail rem h.split block_eq in
      rw parts (
        absorb_input-Holds
          (record ctx { state = (absorb ctx.state block ctx.block_size).0; num = 0; buf = filled })
          law (h.front ++ block) absorbed
          (omega (arith, length-write ctx.num (take rem inp) ctx.buf (omega arith))) (drop rem inp)
          _ _ refl refl)

  -- `keccak1600_update` appends its input to what the context holds.
  pub update-Holds :
      (ctx : Keccak S) (m inp : List ℕ)
      → Absorbs absorb ctx.block_size
      → Holds m ctx
      → Holds (m ++ inp) (keccak1600_update absorb ctx inp)
  unfolding keccak1600_update
  update-Holds ctx m [] law h = rw append-nil h
  update-Holds ctx m (b ∷ bs) law h = elim (Bool-cases (ctx.num == 0)) [
    | inl empty ↦
        let e = (==_iff ctx.num 0).0 empty in
        let m_front : m ≡ h.front =
          h.split
          ∙ ap (λ l. h.front ++ l) (sym (nil_of_length h.tail (h.tail_len ∙ e)))
          ∙ append-nil h.front in
        rw (empty, m_front)
          (absorb_input-Holds ctx law h.front h.absorbed h.block_le (b ∷ bs) _ _ refl e)
    | inr partial ↦ elim (Bool-cases (ltb (length (b ∷ bs)) (ctx.block_size - ctx.num))) [
      | inl short ↦ rw (partial, short) (buffer-Holds ctx m (b ∷ bs) h (ltb→lt _ _ short))
      | inr long ↦ rw (partial, long) (fill-Holds ctx m (b ∷ bs) law h (ground arith))
    ]
  ]
