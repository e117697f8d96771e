-- ===== src/Pedersen/Codec/Fields.antt =====
-- Reading the numbers of a buffer one after the other.
use audit_mpc_lib.Common.{
  lt→ltb, ℕ, ◌+◌, ◌^◌, ◌≤◌, ◌<◌, ◌≡◌, refl, ap, ◌∙◌, subst, inl, inr, ◌⊎◌, Option, none, some, List,
  ◌++◌, append_assoc, length, length-append, drop, take-append, drop-append, drop-add, arith,
  le→leb, ge→ltb, Documents, Ensures, pure_rule, bind_rule, passes_rule, from_bytes, sub32, sub64,
  sub64_lem, sub32-sub32, put32, get32-put32,
}
use audit_mpc_lib.Bignum.{Bignum, Documented}
use audit_mpc_lib.Bignum.Modexp.{Modexp, ModexpDocumented}
use audit_mpc_lib.Pedersen.Codec.{
  CodecStatus, refused, field, read32, read_bytes, attempt, bin2bn_at, read_number,
}

-- The offset `p` of the buffer is where `bytes` begin, and they go on to its end.
pub record At (buffer : List ℕ) (p : ℕ) (bytes : List ℕ) : Type 0 where
  pub from : drop p buffer ≡ bytes
  pub ends : p + length bytes ≡ length buffer

pub skip :
    (buffer : List ℕ) (p k : ℕ) (front rest : List ℕ)
    → At buffer p (front ++ rest)
    → length front ≡ k
    → At buffer (p + k) rest
skip buffer p k front rest here len = record {
  from = drop-add p k buffer ∙ ap (λ xs. drop k xs) here.from ∙ drop-append k front rest len;
  ends = omega (arith, here.ends, length-append front rest);
}

word_fits :
    (buffer : List ℕ) (p n : ℕ) (rest : List ℕ)
    → At buffer p (put32 n ++ rest)
    → p + 4 ≤ length buffer
unfolding put32
word_fits buffer p n rest here = omega (arith, here.ends)

module _ {W : Type 0} (R : Type 0) where
  pub read32-At :
      (buffer : List ℕ) (p n : ℕ) (rest : List ℕ)
      → At buffer p (put32 n ++ rest)
      → n < 2 ^ 32
      → Ensures {W = W} R (λ r. r ≡ n) (read32 buffer p)
  unfolding read32
  read32-At buffer p n rest here small =
      rw
        (
          le→leb (p + 4) (length buffer) (word_fits buffer p n rest here),
          here.from,
          get32-put32 n rest small,
        )
        (pure_rule R n refl)

  pub read_bytes-At :
      (buffer : List ℕ) (p len : ℕ) (bytes rest : List ℕ)
      → At buffer p (bytes ++ rest)
      → length bytes ≡ len
      → Ensures {W = W} R (λ r. r ≡ bytes) (read_bytes buffer p len)
  unfolding read_bytes
  read_bytes-At buffer p len bytes rest here h =
      rw
        (
          le→leb (p + len) (length buffer) (omega (arith, here.ends, length-append bytes rest)),
          here.from,
          take-append len bytes rest h,
        )
        (pure_rule R bytes refl)

pub length-put32 : (n : ℕ) → length (put32 n) ≡ 4
unfolding put32
length-put32 n = refl

module _ {W : Type 0} (R : Type 0) (bn : Bignum W) (law : Documented R bn) (mx : Modexp W)
    (mlaw : ModexpDocumented R mx bn.bn2bin) where
  -- A number that was read: it is there unless memory ran out.
  abbrev pub Found : ℕ → Option ℕ → Type 0
  Found n r = (r ≡ some n) ⊎ ((r ≡ none) × (¬ R))

  attempt-Found :
      (n : ℕ) → Ensures {W = W} {E = CodecStatus} R (Found n) (attempt (bn.bin2bn (bn.bn2bin n)))
  attempt-Found n = record {
    run = λ w. found (bn.bin2bn (bn.bn2bin n) w).0 (law.bin2bn_lem (bn.bn2bin n) w);
  }
    where
      found : (r : Option ℕ) → Documents (¬ R) (λ r'. r' ≡ from_bytes 0 (bn.bn2bin n)) r → Found n r
      found none d = inr (refl, d)
      found (some r) d = inl (ap (λ k. some k) (d ∙ mlaw.bn2bin_lem n))

  -- The digits of a number, whose length is an int.
  pub bin2bn_at-Found :
      (buffer : List ℕ) (p n : ℕ) (rest : List ℕ)
      → At buffer p (bn.bn2bin n ++ rest)
      → mx.num_bytes n < 2 ^ 31
      → Ensures R (Found n) (bin2bn_at bn buffer p (mx.num_bytes n))
  unfolding bin2bn_at
  bin2bn_at-Found buffer p n rest here small = rw (lt→ltb (mx.num_bytes n) (2 ^ 31) small) (
      bind_rule R
        (read_bytes-At R buffer p (mx.num_bytes n) (bn.bn2bin n) rest here (mlaw.bn2bin_len n))
        λ bytes e. rw e (attempt-Found n))

  pub length-field : (n : ℕ) → length (field bn mx n) ≡ 4 + mx.num_bytes n
  length-field n = omega (
    arith,
    length-append (put32 (mx.num_bytes n)) (bn.bn2bin n),
    length-put32 (mx.num_bytes n),
    mlaw.bn2bin_len n,
  )

  pub read_number-field :
      (slack : ℕ) (buffer : List ℕ) (p left n : ℕ) (rest : List ℕ)
      → At buffer p (field bn mx n ++ rest)
      → length buffer < 2 ^ 32
      → mx.num_bytes n < 2 ^ 31
      → left ≡ 4 + mx.num_bytes n + length rest
      → slack ≤ 4 + length rest
      → Ensures R
          (λ r. Found n r.0 × At buffer r.1 rest × (r.2 ≡ length rest))
          (read_number bn slack buffer p left)
  unfolding read_number
  read_number-field slack buffer p left n rest here small int left_len room =
      let len = mx.num_bytes n in
      let bytes = bn.bn2bin n in
      let start : At buffer p (put32 len ++ (bytes ++ rest)) =
        subst (λ xs. At buffer p xs) (append_assoc (put32 len) bytes rest) here in
      let digits_at : At buffer (p + 4) (bytes ++ rest) =
        skip buffer p 4 (put32 len) (bytes ++ rest) start (length-put32 len) in
      let rest_at : At buffer (p + 4 + len) rest =
        skip buffer (p + 4) len bytes rest digits_at (mlaw.bn2bin_len n) in
      let len_small : len < 2 ^ 32 = omega (arith, rest_at.ends, small) in
      let left_small : left < 2 ^ 32 = omega (arith, rest_at.ends, small, left_len) in
      let after : sub32 (sub32 left 4) len ≡ length rest =
        sub32-sub32 left 4 len (omega (arith, left_len)) left_small ∙ omega (arith, left_len) in
      bind_rule R (read32-At R buffer p len (bytes ++ rest) start len_small) λ k k_lem. rw k_lem (
        passes_rule R refused
          (ge→ltb (sub64 left slack) len
            (omega (arith, sub64_lem left slack (omega arith) (omega arith), left_len, room)))
          (bind_rule R (bin2bn_at-Found buffer (p + 4) n rest digits_at int) λ r found.
            pure_rule R (r, p + 4 + len, sub32 (sub32 left 4) len) (found, rest_at, after)))
