-- ===== src/Pedersen/Codec/PublicBytes.antt =====
-- The bytes of a public key, which may stand before others, are read back.
use audit_mpc_lib.Common.{
  ℕ, ◌+◌, ◌*◌, ◌^◌, ◌≤◌, ◌<◌, ◌≡◌, refl, ◌∙◌, subst, inl, inr, false, ◌||◌, Option, none, some,
  List, ◌++◌, length, length-append, arith, ltb, ge→ltb, Ensures, pure_rule, bind_rule, fail_rule,
  passes_rule,
}
use audit_mpc_lib.Bignum.{Bignum, Documented}
use audit_mpc_lib.Bignum.Modexp.{Modexp, ModexpDocumented}
use audit_mpc_lib.Pedersen.{PedersenPublic, min_key_len_in_bits}
use audit_mpc_lib.Pedersen.Codec.{refused, field, accept_public, public_deserialize_internal}
use audit_mpc_lib.Pedersen.Codec.Fields.{At, skip, Found, length-field, read_number-field}

within : (n s t : ℕ) → s ≤ n → t ≤ n → (ltb n s || ltb n t) ≡ false
within n s t hs ht = ground arith

module _ {W : Type 0} (R : Type 0) (bn : Bignum W) (law : Documented R bn) (mx : Modexp W)
    (mlaw : ModexpDocumented R mx bn.bn2bin) where
  abbrev pub FoundHere : ℕ → Option ℕ → Type 0
  FoundHere = Found R bn law mx mlaw

  -- What the numbers of a key have to be for the checks of a reader, and the size of what is written.
  pub record IsKey (key : PedersenPublic) : Type 0 where
    pub n_bits : min_key_len_in_bits ≤ mx.num_bits key.n
    pub s_le : key.s ≤ key.n
    pub t_le : key.t ≤ key.n
    -- BN_num_bytes is an int
    pub n_int : mx.num_bytes key.n < 2 ^ 31
    pub s_int : mx.num_bytes key.s < 2 ^ 31
    pub t_int : mx.num_bytes key.t < 2 ^ 31

  accepted :
      (key : PedersenPublic) (n s t : Option ℕ) (len : ℕ)
      → IsKey key
      → FoundHere key.n n
      → FoundHere key.s s
      → FoundHere key.t t
      → Ensures R (λ r. r ≡ (record key { mont = none }, len)) (accept_public bn mx n s t len)
  unfolding accept_public
  accepted key n s t len good (inl hn) (inl hs) (inl ht) =
      rw (hn, hs, ht)
        (passes_rule R refused (ge→ltb _ _ good.n_bits) (
          passes_rule R refused (within key.n key.s key.t good.s_le good.t_le)
            (pure_rule R _ refl)))
  accepted key n s t len good (inr (hn, r)) hs ht = rw hn (fail_rule R refused r)
  accepted key n s t len good (inl hn) (inr (hs, r)) ht = rw (hn, hs) (fail_rule R refused r)
  accepted key n s t len good (inl hn) (inl hs) (inr (ht, r)) =
      rw (hn, hs, ht) (fail_rule R refused r)

  abbrev pub public_bytes : PedersenPublic → List ℕ → List ℕ
  public_bytes key rest = field bn mx key.n ++ (field bn mx key.s ++ (field bn mx key.t ++ rest))

  abbrev pub public_len : PedersenPublic → ℕ
  public_len key = 4 * 3 + mx.num_bytes key.n + mx.num_bytes key.s + mx.num_bytes key.t

  pub length-field_append :
      (n : ℕ) (rest : List ℕ) → length (field bn mx n ++ rest) ≡ 4 + mx.num_bytes n + length rest
  length-field_append n rest =
      omega (arith, length-append (field bn mx n) rest, length-field R bn law mx mlaw n)

  pub length-public_bytes :
      (key : PedersenPublic) (rest : List ℕ)
      → length (public_bytes key rest) ≡ public_len key + length rest
  length-public_bytes key rest = omega (
    arith,
    length-field_append key.n (field bn mx key.s ++ (field bn mx key.t ++ rest)),
    length-field_append key.s (field bn mx key.t ++ rest),
    length-field_append key.t rest,
  )

  pub public-At :
      (key : PedersenPublic) (rest : List ℕ) → At (public_bytes key rest) (public_len key) rest
  public-At key rest =
      let buffer = public_bytes key rest in
      let start : At buffer 0 buffer = record { from = refl; ends = omega arith } in
      let s_at =
        skip buffer 0 (4 + mx.num_bytes key.n) (field bn mx key.n) _ start
          (length-field R bn law mx mlaw key.n) in
      let t_at =
        skip buffer _ (4 + mx.num_bytes key.s) (field bn mx key.s) _ s_at
          (length-field R bn law mx mlaw key.s) in
      let end_at =
        skip buffer _ (4 + mx.num_bytes key.t) (field bn mx key.t) rest t_at
          (length-field R bn law mx mlaw key.t) in
      subst (λ p. At buffer p rest) (omega arith) end_at

  third_end :
      (key : PedersenPublic) (rest : List ℕ) (p : ℕ)
      → length (public_bytes key rest) ≡ public_len key + length rest
      → p + length rest ≡ length (public_bytes key rest)
      → public_len key ≡ p
  third_end key rest p size ends = omega arith

  pub internal_field :
      (key : PedersenPublic) (rest : List ℕ)
      → IsKey key
      → length (public_bytes key rest) < 2 ^ 32
      → Ensures R
          (λ r. r ≡ (record key { mont = none }, public_len key))
          (public_deserialize_internal bn mx
            (some (public_bytes key rest))
            (length (public_bytes key rest)))
  unfolding public_deserialize_internal
  internal_field key rest good small =
      let buffer = public_bytes key rest in
      let size = length-public_bytes key rest in
      let s_len = length-field_append key.s (field bn mx key.t ++ rest) in
      let t_len = length-field_append key.t rest in
      passes_rule R refused (ge→ltb (length buffer) 12 (omega (arith, size))) (
        bind_rule R
          (read_number-field R bn law mx mlaw 12 buffer 0 (length buffer) key.n
            (field bn mx key.s ++ (field bn mx key.t ++ rest))
            (record { from = refl; ends = omega arith }) small good.n_int
            (omega (arith, size, s_len, t_len)) (omega (arith, s_len, t_len)))
          λ first h.
            bind_rule R
              (read_number-field R bn law mx mlaw 8 buffer first.1 first.2 key.s
                (field bn mx key.t ++ rest) h.1 small good.s_int (h.2 ∙ s_len)
                (omega (arith, t_len)))
              λ second h'.
                bind_rule R
                  (read_number-field R bn law mx mlaw 4 buffer second.1 second.2 key.t rest h'.1
                    small good.t_int (h'.2 ∙ t_len) (omega arith))
                  λ third h''.
                    rw (third_end key rest third.1 size h''.1.ends)
                      (accepted key first.0 second.0 third.0 third.1 good h.0 h'.0 h''.0))
