-- ===== src/Pedersen/Codec/RoundTrip.antt =====
-- A key that is written is read back.
use native.Mathlib.Nat.{mod-eq_of_lt}
use audit_mpc_lib.Common.{
  assert_passes, Bool, ◌&&◌, ℕ, ◌+◌, ◌-◌, ◌*◌, ◌%◌, ◌^◌, ◌≤◌, ◌<◌, ◌≡◌, refl, ap, ◌∙◌, inl, inr,
  true, false, not, Option, none, some, List, [], ◌++◌, append_assoc, append-nil, length, arith,
  ge→ltb, ◌==◌, ==_iff, Call, Documents, Ensures, pure_rule, bind_rule, fail_rule, call_rule,
  passes_rule, sub32_lem,
}
use audit_mpc_lib.Bignum.{Bignum, Documented}
use audit_mpc_lib.Bignum.Modexp.{Modexp, ModexpDocumented}
use audit_mpc_lib.Pedersen.{PedersenPublic, PedersenPrivate}
use audit_mpc_lib.Pedersen.Codec.{
  refused, aborted, null_written, field, public_serialize_internal, public_serialize,
  private_serialize, flagged, public_deserialize, private_deserialize,
}
use audit_mpc_lib.Pedersen.Codec.Fields.{read_number-field}
use audit_mpc_lib.Pedersen.Codec.PublicBytes.{
  FoundHere, IsKey, length-field_append, length-public_bytes, public-At, internal_field,
  public_bytes, public_len,
}

finished : (asserts : Bool) {k : ℕ} → k ≡ 0 → (asserts && not (k == 0)) ≡ false
finished asserts {k} h = assert_passes asserts (not (k == 0)) (rw h refl)

module _ {W : Type 0} (R : Type 0) (bn : Bignum W) (law : Documented R bn) (mx : Modexp W)
    (mlaw : ModexpDocumented R mx bn.bn2bin) where
  serialized :
      (key : PedersenPublic) (buffer_len : ℕ)
      → public_len R bn law mx mlaw key < 2 ^ 32
      → public_len R bn law mx mlaw key ≤ buffer_len
      → public_serialize_internal bn mx key true buffer_len
        ≡ (public_len R bn law mx mlaw key, some (public_bytes R bn law mx mlaw key []))
  unfolding public_serialize_internal
  serialized key buffer_len small room =
      rw
        (
          mod-eq_of_lt small,
          ge→ltb buffer_len (public_len R bn law mx mlaw key) room,
          append-nil (field bn mx key.t),
        )
        refl

  abbrev pub private_bytes : PedersenPrivate → List ℕ
  private_bytes key =
      public_bytes R bn law mx mlaw key.public
        (field bn mx key.lamda ++ (field bn mx key.phi_n ++ []))

  private_size :
      (key : PedersenPrivate)
      → length (private_bytes key) < 2 ^ 32
      → ((public_serialize_internal bn mx key.public false 0).0
            + 4 * 2
            + mx.num_bytes key.lamda
            + mx.num_bytes key.phi_n)
          % 2 ^ 32
        ≡ length (private_bytes key)
  unfolding public_serialize_internal
  private_size key small =
      let all =
        length-public_bytes R bn law mx mlaw key.public
          (field bn mx key.lamda ++ (field bn mx key.phi_n ++ [])) in
      let l_len = length-field_append R bn law mx mlaw key.lamda (field bn mx key.phi_n ++ []) in
      let f_len = length-field_append R bn law mx mlaw key.phi_n [] in
      rw
        (mod-eq_of_lt {n = public_len R bn law mx mlaw key.public} {m = 2 ^ 32}
          (omega (arith, all)))
        (ap (λ k. k % 2 ^ 32) (omega (arith, all, l_len, f_len)) ∙ mod-eq_of_lt small)

  public_bytes-append :
      (key : PedersenPublic) (rest : List ℕ)
      → public_bytes R bn law mx mlaw key [] ++ rest ≡ public_bytes R bn law mx mlaw key rest
  public_bytes-append key rest =
      let fn = field bn mx key.n in
      let fs = field bn mx key.s in
      let ft = field bn mx key.t in
      append_assoc fn (fs ++ (ft ++ [])) rest
      ∙ ap (λ xs. fn ++ xs) (append_assoc fs (ft ++ []) rest)
      ∙ ap (λ xs. fn ++ (fs ++ (xs ++ rest))) (append-nil ft)

  module _ (asserts : Bool) (calloc : Call W (Unit {0}))
      (calloc_lem : (w : W) → Documents (¬ R) (λ _. Unit {0}) (calloc w).0) where
    -- A public key that meets the reader's checks, written into a buffer that is long enough, is read
    -- back from the bytes that were written, without its Montgomery context; it needs less than 4 GiB,
    -- and reading fails only where memory runs out.
    pub public_serialize-deserialize :
        (key : PedersenPublic) (buffer_len : ℕ)
        → IsKey R bn law mx mlaw key
        → public_len R bn law mx mlaw key < 2 ^ 32
        → public_len R bn law mx mlaw key ≤ buffer_len
        → (bytes : List ℕ) × (public_serialize bn mx (some key) true buffer_len
            ≡ (some bytes, some (length bytes)))
          × Ensures R
              (λ k. k ≡ record key { mont = none })
              (public_deserialize asserts bn mx calloc (some bytes) (length bytes))
    unfolding public_serialize public_deserialize
    public_serialize-deserialize key buffer_len good small room =
        let bytes = public_bytes R bn law mx mlaw key [] in
        let size : length bytes ≡ public_len R bn law mx mlaw key =
          omega (arith, length-public_bytes R bn law mx mlaw key []) in
        (
          bytes,
          rw
              (
                serialized key buffer_len small room,
                ge→ltb buffer_len (public_len R bn law mx mlaw key) room,
                size,
              )
              refl,
          call_rule R refused calloc calloc_lem λ _ _.
              bind_rule R (internal_field R bn law mx mlaw key [] good (omega (arith, size))) λ r e.
                rw
                  (
                    e,
                    size,
                    (==_iff (public_len R bn law mx mlaw key) (public_len R bn law mx mlaw key)).1
                        refl,
                    assert_passes asserts false refl,
                  )
                  (pure_rule R _ refl),
        )

    flagged_rule :
        (n : ℕ) (r : Option ℕ)
        → FoundHere R bn law mx mlaw n r
        → Ensures {W = W} R (λ k. k ≡ n) (flagged r)
    flagged_rule n r (inl h) = rw h (pure_rule R n refl)
    flagged_rule n r (inr (h, out)) = rw h (fail_rule R null_written out)

    -- The same of a private key, in every build, whose numbers besides the public key may be anything that
    -- BN_num_bytes, an int, can count.
    pub private_serialize-deserialize :
        (key : PedersenPrivate) (buffer_len : ℕ)
        → IsKey R bn law mx mlaw key.public
        → mx.num_bytes key.lamda < 2 ^ 31
        → mx.num_bytes key.phi_n < 2 ^ 31
        → length (private_bytes key) < 2 ^ 32
        → length (private_bytes key) ≤ buffer_len
        → (bytes : List ℕ) × (private_serialize bn mx (some key) true buffer_len
            ≡ (some bytes, some (length bytes)))
          × Ensures R
              (λ k. k ≡ record key { public = record key.public { mont = none } })
              (private_deserialize asserts bn mx calloc (some bytes) (length bytes))
    unfolding private_serialize private_deserialize
    private_serialize-deserialize key buffer_len good lamda_int phi_int small room =
        let bytes = private_bytes key in
        let tail = field bn mx key.lamda ++ (field bn mx key.phi_n ++ []) in
        let size : length bytes ≡ public_len R bn law mx mlaw key.public + length tail =
          length-public_bytes R bn law mx mlaw key.public tail in
        let l_len = length-field_append R bn law mx mlaw key.lamda (field bn mx key.phi_n ++ []) in
        let f_len = length-field_append R bn law mx mlaw key.phi_n [] in
        (
          bytes,
          rw
              (
                private_size key small,
                ge→ltb buffer_len (length bytes) room,
                serialized key.public buffer_len (omega (arith, size)) (omega (arith, size)),
                public_bytes-append key.public (field bn mx key.lamda ++ field bn mx key.phi_n),
                append-nil (field bn mx key.phi_n),
              )
              refl,
          call_rule R refused calloc calloc_lem λ _ _.
              bind_rule R (internal_field R bn law mx mlaw key.public tail good small) λ r e.
                rw
                  (
                    e,
                    sub32_lem (length bytes) (public_len R bn law mx mlaw key.public)
                        (omega (arith, size)) small,
                  )
                  (passes_rule R refused
                    (ge→ltb (length bytes - public_len R bn law mx mlaw key.public) 8
                      (omega (arith, size, l_len, f_len)))
                    (bind_rule R
                      (read_number-field R bn law mx mlaw 8 bytes
                        (public_len R bn law mx mlaw key.public)
                        (length bytes - public_len R bn law mx mlaw key.public) key.lamda
                        (field bn mx key.phi_n ++ []) (public-At R bn law mx mlaw key.public tail)
                        small lamda_int (omega (arith, size, l_len)) (omega (arith, f_len)))
                      λ first h. bind_rule R (flagged_rule key.lamda first.0 h.0) λ lamda l_lem.
                        bind_rule R
                          (read_number-field R bn law mx mlaw 4 bytes first.1 first.2 key.phi_n []
                            h.1 small phi_int (h.2 ∙ f_len) (omega arith))
                          λ second h'.
                            bind_rule R (flagged_rule key.phi_n second.0 h'.0) λ phi f_lem.
                              rw (l_lem, f_lem)
                                (passes_rule R aborted (finished asserts h'.2)
                                  (pure_rule R _ refl)))),
        )
