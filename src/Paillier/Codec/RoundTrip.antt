-- ===== src/Paillier/Codec/RoundTrip.antt =====
-- A key that is written is read back.
use native.Mathlib.Nat.{mod-eq_of_lt}
use audit_mpc_lib.Common.{
  assert_passes, Bool, inl, inr, ℕ, ◌+◌, ◌-◌, ◌*◌, ◌%◌, ◌^◌, ◌≤◌, ◌<◌, ◌≡◌, refl, sym, ap, ◌∙◌,
  subst, true, false, not, Option, none, some, List, [], ◌++◌, append-nil, length, arith, ge→ltb,
  ◌==◌, ==_iff, Action, Call, fail, ◌>>=◌, Documents, put32, sub64, sub64_lem, Yields, Yields-pure,
  Yields-bind, Yields-call, Yields-passes, Yields-Ensures,
}
use audit_mpc_lib.Bignum.{Bignum, Documented}
use audit_mpc_lib.Bignum.Modexp.{Modexp, ModexpDocumented}
use audit_mpc_lib.Bignum.Integers.{Integers, IntegersDocumented}
use audit_mpc_lib.Pedersen.{min_key_len_in_bits}
use audit_mpc_lib.Pedersen.Codec.{CodecStatus, refused, aborted, bin2bn_at}
use audit_mpc_lib.Pedersen.Codec.Fields.{At, skip, read32-At, Found, bin2bn_at-Found, length-put32}
use audit_mpc_lib.Paillier.Units.{inverse_unique, Invertible-found}
use audit_mpc_lib.Paillier.Cipher.{PublicKey, PrivateKey}
use audit_mpc_lib.Paillier.Codec.{
  public_key_serialize, public_key_deserialize, private_key_serialize, private_key_deserialize,
  derive_key, present,
}

-- The numbers of a private key belong together, and its length fits into the format.
pub record IsConsistent {W : Type 0} (mx : Modexp W) (key : PrivateKey) : Type 0 where
  pub product : key.public.n ≡ key.p * key.q
  pub square : key.public.n2 ≡ key.public.n * key.public.n
  pub totient : key.lamda ≡ key.p * key.q - key.p - key.q + 1
  pub room : key.p + key.q ≤ key.p * key.q
  pub positive : 0 < key.public.n
  pub inverse : key.lamda * key.mu % key.public.n ≡ 1 % key.public.n
  pub reduced : key.mu < key.public.n
  pub same_len : mx.num_bytes key.p ≡ mx.num_bytes key.q
  pub large : min_key_len_in_bits ≤ mx.num_bits key.public.n
  pub long : 32 ≤ 2 * mx.num_bytes key.p
  pub short : 4 + 2 * mx.num_bytes key.p < 2 ^ 32

pub record IsSound {W : Type 0} (mx : Modexp W) (key : PublicKey) : Type 0 where
  pub square : key.n2 ≡ key.n * key.n
  pub large : min_key_len_in_bits ≤ mx.num_bits key.n
  pub long : 32 ≤ mx.num_bytes key.n
  pub short : 4 + mx.num_bytes key.n < 2 ^ 32
  -- BN_num_bytes is an int
  pub int : mx.num_bytes key.n < 2 ^ 31

-- What goes on with the buffer that was written.
abbrev pub with_buffer :
    {W A : Type 0} → Option (List ℕ) → (List ℕ → Action W CodecStatus A) → Action W CodecStatus A
with_buffer none k = fail refused
with_buffer (some bytes) k = k bytes

equal_passes : (a b : ℕ) → a ≡ b → not (a == b) ≡ false
equal_passes a b e = rw ((==_iff a b).1 e)

module _ {W R : Type 0} (given : R) (bn : Bignum W) (law : Documented R bn) (mx : Modexp W)
    (mlaw : ModexpDocumented R mx bn.bn2bin) (zn : Integers W)
    (zlaw : IntegersDocumented R zn mx) where
  present-Found :
      (Q : CodecStatus → Type 0) (n : ℕ) (r : Option ℕ)
      → Found R bn law mx mlaw n r
      → Yields Q (λ k. k ≡ n) (present bn mx zn r)
  unfolding present
  present-Found Q n r (inl e) = rw e (Yields-pure Q n refl)
  present-Found Q n r (inr (e, out)) = absurd (out given)

  derive_key_lem :
      (key : PrivateKey)
      → IsConsistent mx key
      → Yields (λ _. ⊥) (λ k. k ≡ key) (derive_key bn mx zn key.p key.q)
  unfolding derive_key
  derive_key_lem key good = Yields-call Q given refused bn.ctx_new law.ctx_new_lem λ _ _.
      Yields-call Q given refused (mx.mul key.p key.q) (mlaw.mul_lem key.p key.q) λ n e.
        let en : n ≡ key.public.n = e ∙ sym good.product in
        rw en (
          Yields-call Q given refused (zn.sqr key.public.n) (zlaw.sqr_lem key.public.n) λ n2 e2.
            Yields-call Q given refused (mx.sub key.public.n key.p)
              (λ w. mlaw.sub_lem key.public.n key.p w (omega (arith, good.room, good.product)))
              λ l el. rw el (
                Yields-call Q given refused (mx.sub (key.public.n - key.p) key.q)
                  (λ w.
                    mlaw.sub_lem (key.public.n - key.p) key.q w
                      (omega (arith, good.room, good.product)))
                  λ l' el'. rw el' (
                    Yields-call Q given refused (zn.add_word (key.public.n - key.p - key.q) 1)
                      (zlaw.add_word_lem (key.public.n - key.p - key.q) 1)
                      λ l'' el''.
                        let same : l'' ≡ key.lamda =
                          el'' ∙ ap (λ n. n - key.p - key.q + 1) good.product ∙ sym good.totient in
                        rw same (
                          Yields-call Q given refused (bn.mod_inverse key.lamda key.public.n)
                            inverted
                            λ mu inv.
                              Yields-passes Q refused
                                (ge→ltb (mx.num_bits key.public.n) min_key_len_in_bits good.large)
                                (Yields-pure Q
                                  (record {
                                    public = record { n = key.public.n; n2 = n2 };
                                    p = key.p;
                                    q = key.q;
                                    lamda = key.lamda;
                                    mu = mu;
                                  })
                                  (λ i. record {
                                    public = record {
                                      n = key.public.n;
                                      n2 = (e2 ∙ sym good.square) i;
                                    };
                                    p = key.p;
                                    q = key.q;
                                    lamda = key.lamda;
                                    mu = same_inverse mu inv i;
                                  }))))))
    where
      Q : CodecStatus → Type 0
      Q _ = ⊥

      same_inverse :
          (mu : ℕ)
          → (mu < key.public.n) × (key.lamda * mu % key.public.n ≡ 1 % key.public.n)
          → mu ≡ key.mu
      same_inverse mu h =
          sym (mod-eq_of_lt h.0)
          ∙ inverse_unique key.public.n key.lamda mu key.mu h.1 good.inverse
          ∙ mod-eq_of_lt good.reduced

      inverted :
          (w : W)
          → Documents
              (¬ R)
              (λ r. (r < key.public.n) × (key.lamda * r % key.public.n ≡ 1 % key.public.n))
              (bn.mod_inverse key.lamda key.public.n w).0
      inverted w =
          Invertible-found R _ key.public.n key.lamda (bn.mod_inverse key.lamda key.public.n w).0
            (key.mu, good.inverse) (law.mod_inverse_lem key.lamda key.public.n w good.positive)

  private_read :
      (asserts : Bool) (calloc : Call W (Unit {0})) (key : PrivateKey) (buffer : List ℕ)
      → ((w : W) → Documents (¬ R) (λ _. Unit {0}) (calloc w).0)
      → IsConsistent mx key
      → buffer ≡ put32 (mx.num_bytes key.p) ++ (bn.bn2bin key.p ++ bn.bn2bin key.q)
      → Yields
          (λ _. ⊥)
          (λ k. k ≡ key)
          (private_key_deserialize bn mx zn asserts calloc (some buffer) (length buffer))
  unfolding private_key_deserialize
  private_read asserts calloc key buffer calloc_lem good e =
      let k = mx.num_bytes key.p in
      let p_bytes = bn.bn2bin key.p in
      let q_bytes = bn.bn2bin key.q in
      let p_len : length p_bytes ≡ k = mlaw.bn2bin_len key.p in
      let q_len : length q_bytes ≡ k = mlaw.bn2bin_len key.q ∙ sym good.same_len in
      let start : At buffer 0 (put32 k ++ (p_bytes ++ q_bytes)) = record {
        from = e;
        ends = omega (arith, ap length e);
      } in
      let at_p : At buffer 4 (p_bytes ++ q_bytes) =
        skip buffer 0 4 (put32 k) (p_bytes ++ q_bytes) start (length-put32 k) in
      let at_q : At buffer (4 + k) q_bytes = skip buffer 4 k p_bytes q_bytes at_p p_len in
      let at_q' : At buffer (4 + k) (q_bytes ++ []) =
        subst (At buffer (4 + k)) (sym (append-nil q_bytes)) at_q in
      let whole : length buffer ≡ 4 + 2 * k = omega (arith, at_q.ends, q_len) in
      let doubled : 2 * k % 2 ^ 32 ≡ sub64 (length buffer) 4 = omega (
        arith,
        whole,
        good.short,
        sub64_lem (length buffer) 4 (omega arith) (omega (arith, good.short)),
      ) in
      Yields-passes Q refused (ge→ltb (length buffer) 36 (omega (arith, whole, good.long))) (
        Yields-call Q given refused calloc calloc_lem λ _ _.
          Yields-bind Q
            (Yields-Ensures Q given
              (read32-At R buffer 0 k (p_bytes ++ q_bytes) start (omega (arith, good.short))))
            λ len el. rw el (
              Yields-passes Q aborted
                (assert_passes asserts _
                  (equal_passes (2 * k % 2 ^ 32) (sub64 (length buffer) 4) doubled))
                (Yields-passes Q refused
                  (ge→ltb (sub64 (length buffer) 4) (2 * k % 2 ^ 32) (omega (arith, doubled)))
                  (Yields-bind Q
                    (Yields-Ensures Q given (
                      bin2bn_at-Found R bn law mx mlaw buffer 4 key.p q_bytes at_p
                        (omega (arith, good.short))))
                    λ p' ep.
                      Yields-bind Q
                        (subst
                          (λ j.
                            Yields Q (Found R bn law mx mlaw key.q) (bin2bn_at bn buffer (4 + k) j))
                          (sym good.same_len)
                          (Yields-Ensures Q given (
                            bin2bn_at-Found R bn law mx mlaw buffer (4 + k) key.q [] at_q'
                              (omega (arith, good.short, good.same_len)))))
                        λ q' eq. Yields-call Q given refused bn.get law.get_lem λ _ _.
                          Yields-call Q given refused bn.get law.get_lem λ _ _.
                            Yields-call Q given refused bn.get law.get_lem λ _ _.
                              Yields-call Q given refused bn.get law.get_lem λ _ _.
                                Yields-bind Q (present-Found Q key.p p' ep) λ p e'.
                                  Yields-bind Q (present-Found Q key.q q' eq)
                                    λ q f'. rw (e', f') (derive_key_lem key good)))))
    where
      Q : CodecStatus → Type 0
      Q _ = ⊥

  private_written :
      (asserts : Bool) (key : PrivateKey) (buffer_len : ℕ)
      → IsConsistent mx key
      → 4 + 2 * mx.num_bytes key.p ≤ buffer_len
      → Yields
          (λ _. ⊥)
          (λ r. r.0 ≡ some (put32 (mx.num_bytes key.p) ++ (bn.bn2bin key.p ++ bn.bn2bin key.q)))
          (private_key_serialize bn mx zn asserts (some key) true buffer_len)
  unfolding private_key_serialize
  private_written asserts key buffer_len good room =
      Yields-passes (λ _. ⊥) aborted
        (assert_passes asserts _
          (equal_passes (mx.num_bytes key.p) (mx.num_bytes key.q) good.same_len))
        (rw
          (ge→ltb buffer_len ((4 + 2 * mx.num_bytes key.p % 2 ^ 32) % 2 ^ 32)
            (omega (arith, good.short)))
          (Yields-pure (λ _. ⊥)
            (
              some (put32 (mx.num_bytes key.p) ++ (bn.bn2bin key.p ++ bn.bn2bin key.q)),
              some ((4 + 2 * mx.num_bytes key.p % 2 ^ 32) % 2 ^ 32),
            )
            refl))

  -- A private key whose numbers belong together, written into a buffer with room for it and read
  -- back, is the same key, in every build.
  pub private_key_serialize-deserialize :
      (asserts : Bool) (calloc : Call W (Unit {0})) (key : PrivateKey) (buffer_len : ℕ)
      → ((w : W) → Documents (¬ R) (λ _. Unit {0}) (calloc w).0)
      → IsConsistent mx key
      → 4 + 2 * mx.num_bytes key.p ≤ buffer_len
      → Yields
          (λ _. ⊥)
          (λ k. k ≡ key)
          (private_key_serialize bn mx zn asserts (some key) true buffer_len >>= λ r.
            with_buffer r.0
              λ bytes. private_key_deserialize bn mx zn asserts calloc (some bytes) (length bytes))
  private_key_serialize-deserialize asserts calloc key buffer_len calloc_lem good room =
      Yields-bind (λ _. ⊥) (private_written asserts key buffer_len good room)
        λ r e. rw e (
          private_read asserts calloc key
            (put32 (mx.num_bytes key.p) ++ (bn.bn2bin key.p ++ bn.bn2bin key.q)) calloc_lem good
            refl)

  public_read :
      (asserts : Bool) (calloc : Call W (Unit {0})) (key : PublicKey) (buffer : List ℕ)
      → ((w : W) → Documents (¬ R) (λ _. Unit {0}) (calloc w).0)
      → IsSound mx key
      → buffer ≡ put32 (mx.num_bytes key.n) ++ bn.bn2bin key.n
      → Yields
          (λ _. ⊥)
          (λ k. k ≡ key)
          (public_key_deserialize bn mx zn asserts calloc (some buffer) (length buffer))
  unfolding public_key_deserialize
  public_read asserts calloc key buffer calloc_lem good e =
      let k = mx.num_bytes key.n in
      let bytes = bn.bn2bin key.n in
      let start : At buffer 0 (put32 k ++ bytes) = record {
        from = e;
        ends = omega (arith, ap length e);
      } in
      let at_n : At buffer 4 bytes = skip buffer 0 4 (put32 k) bytes start (length-put32 k) in
      let at_n' : At buffer 4 (bytes ++ []) = subst (At buffer 4) (sym (append-nil bytes)) at_n in
      let whole : length buffer ≡ 4 + k = omega (arith, at_n.ends, mlaw.bn2bin_len key.n) in
      let left : k ≡ sub64 (length buffer) 4 = omega (
        arith,
        whole,
        good.short,
        sub64_lem (length buffer) 4 (omega arith) (omega (arith, good.short)),
      ) in
      Yields-passes Q refused (ge→ltb (length buffer) 36 (omega (arith, whole, good.long))) (
        Yields-call Q given refused calloc calloc_lem λ _ _.
          Yields-bind Q
            (Yields-Ensures Q given
              (read32-At R buffer 0 k bytes start (omega (arith, good.short))))
            λ len el. rw el (
              Yields-passes Q aborted
                (assert_passes asserts _ (equal_passes k (sub64 (length buffer) 4) left))
                (Yields-passes Q refused (ge→ltb (sub64 (length buffer) 4) k (omega (arith, left)))
                  (Yields-bind Q
                    (Yields-Ensures Q given
                      (bin2bn_at-Found R bn law mx mlaw buffer 4 key.n [] at_n' good.int))
                    λ found ef. Yields-call Q given refused bn.get law.get_lem λ _ _.
                      Yields-bind Q (present-Found Q key.n found ef) λ n en. rw en (
                        Yields-passes Q refused
                          (ge→ltb (mx.num_bits key.n) min_key_len_in_bits good.large)
                          (Yields-call Q given refused bn.ctx_new law.ctx_new_lem λ _ _.
                            Yields-call Q given refused (zn.sqr key.n) (zlaw.sqr_lem key.n) λ n2 e2.
                              Yields-pure Q (record { n = key.n; n2 = n2 })
                                (λ i. record { n = key.n; n2 = (e2 ∙ sym good.square) i })))))))
    where
      Q : CodecStatus → Type 0
      Q _ = ⊥

  -- The same of a public key.
  pub public_key_serialize-deserialize :
      (asserts : Bool) (calloc : Call W (Unit {0})) (key : PublicKey) (buffer_len : ℕ)
      → ((w : W) → Documents (¬ R) (λ _. Unit {0}) (calloc w).0)
      → IsSound mx key
      → 4 + mx.num_bytes key.n ≤ buffer_len
      → Yields
          (λ _. ⊥)
          (λ k. k ≡ key)
          (with_buffer
            (public_key_serialize bn mx zn (some key) true buffer_len).0
            λ bytes. public_key_deserialize bn mx zn asserts calloc (some bytes) (length bytes))
  unfolding public_key_serialize
  public_key_serialize-deserialize asserts calloc key buffer_len calloc_lem good room =
      rw (ge→ltb buffer_len ((4 + mx.num_bytes key.n) % 2 ^ 32) (omega (arith, good.short))) (
        public_read asserts calloc key (put32 (mx.num_bytes key.n) ++ bn.bn2bin key.n) calloc_lem
          good refl)
