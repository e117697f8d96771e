-- ===== src/Paillier/Codec/Bounds.antt =====
-- What the lengths in a buffer can make the two readers do.
use audit_mpc_lib.Common.{
  Bool, ◌&&◌, Option, none, try, ℕ, ◌+◌, ◌*◌, ◌%◌, ◌^◌, ◌≤◌, ◌<◌, ◌≡◌, refl, false, not, ltb,
  ltb→ge, le→leb, ◌==◌, some, List, length, arith, Call, get32, sub64, sub64_lem, Yields,
  Yields-pure, Yields-bind, Yields-fail, Yields-guard, Yields-try,
}
use audit_mpc_lib.Bignum.{Bignum}
use audit_mpc_lib.Bignum.Modexp.{Modexp}
use audit_mpc_lib.Bignum.Integers.{Integers}
use audit_mpc_lib.Pedersen.{min_key_len_in_bits}
use audit_mpc_lib.Pedersen.Codec.{CodecStatus, refused, aborted, read32}
use audit_mpc_lib.Pedersen.Codec.Safety.{InBounds, refused-InBounds, bin2bn_at_lem}
use audit_mpc_lib.Paillier.Codec.{
  present, derive_key, public_key_deserialize, private_key_deserialize,
}

aborted-InBounds : InBounds aborted
aborted-InBounds h = cc

module _ {W : Type 0} where
  read32_word :
      (Q : CodecStatus → Type 0) (buffer : List ℕ)
      → 4 ≤ length buffer
      → Yields {W = W} Q (λ n. n ≡ get32 buffer) (read32 buffer 0)
  unfolding read32
  read32_word Q buffer h = rw (le→leb 4 (length buffer) h) (Yields-pure Q (get32 buffer) refl)

module _ {W : Type 0} (bn : Bignum W) (mx : Modexp W) (zn : Integers W) where
  present-InBounds : (n : Option ℕ) → Yields InBounds (λ _. Unit {0}) (present bn mx zn n)
  unfolding present
  present-InBounds none = Yields-fail InBounds refused refused-InBounds
  present-InBounds (some n) = Yields-pure InBounds n tt

  derive_key-InBounds :
      (p q : ℕ)
      → Yields InBounds
          (λ key. min_key_len_in_bits ≤ mx.num_bits key.public.n)
          (derive_key bn mx zn p q)
  unfolding derive_key
  derive_key-InBounds p q =
      let attempted : (call : Call W ℕ) → Yields InBounds (λ _. Unit {0}) (try refused call) =
        λ call. Yields-try InBounds refused call refused-InBounds in
      Yields-bind InBounds (Yields-try InBounds refused bn.ctx_new refused-InBounds) λ _ _.
        Yields-bind InBounds (attempted (mx.mul p q)) λ n _.
          Yields-bind InBounds (attempted (zn.sqr n)) λ n2 _.
            Yields-bind InBounds (attempted (mx.sub n p)) λ l _.
              Yields-bind InBounds (attempted (mx.sub l q)) λ l' _.
                Yields-bind InBounds (attempted (zn.add_word l' 1)) λ lamda _.
                  Yields-bind InBounds (attempted (bn.mod_inverse lamda n)) λ mu _.
                    Yields-guard InBounds (ltb (mx.num_bits n) min_key_len_in_bits) refused
                      refused-InBounds
                      λ large.
                        Yields-pure InBounds
                          (record {
                            public = record { n = n; n2 = n2 };
                            p = p;
                            q = q;
                            lamda = lamda;
                            mu = mu;
                          })
                          (ltb→ge (mx.num_bits n) min_key_len_in_bits large)

  -- On a buffer of less than 4 GiB whose length is passed with it, no read of a public key leaves the
  -- buffer, in any build and whatever its bytes are, and a key that is read has at
  -- least the smallest number of bits.
  pub public_key_deserialize-InBounds :
      (asserts : Bool) (calloc : Call W (Unit {0})) (buffer : List ℕ)
      → length buffer < 2 ^ 32
      → Yields InBounds
          (λ key. min_key_len_in_bits ≤ mx.num_bits key.n)
          (public_key_deserialize bn mx zn asserts calloc (some buffer) (length buffer))
  unfolding public_key_deserialize
  public_key_deserialize-InBounds asserts calloc buffer small =
      Yields-guard Q (ltb (length buffer) 36) refused refused-InBounds λ enough.
        let room : 36 ≤ length buffer = ltb→ge (length buffer) 36 enough in
        Yields-bind Q (Yields-try Q refused calloc refused-InBounds) λ _ _.
          Yields-bind Q (read32_word Q buffer (omega arith)) λ len _.
            Yields-guard Q (asserts && not (len == sub64 (length buffer) 4)) aborted
              aborted-InBounds
              λ _.
                Yields-guard Q (ltb (sub64 (length buffer) 4) len) refused refused-InBounds λ fits.
                  Yields-bind Q
                    (bin2bn_at_lem bn mx buffer 4 len λ _. omega (
                      arith,
                      ltb→ge (sub64 (length buffer) 4) len fits,
                      sub64_lem (length buffer) 4 (omega arith) (omega arith),
                    ))
                    λ found _. Yields-bind Q (Yields-try Q refused bn.get refused-InBounds) λ _ _.
                      Yields-bind Q (present-InBounds found) λ n _.
                        Yields-guard Q (ltb (mx.num_bits n) min_key_len_in_bits) refused
                          refused-InBounds
                          λ large.
                            Yields-bind Q (Yields-try Q refused bn.ctx_new refused-InBounds) λ _ _.
                              Yields-bind Q (Yields-try Q refused (zn.sqr n) refused-InBounds)
                                λ n2 _.
                                  Yields-pure Q (record { n = n; n2 = n2 })
                                    (ltb→ge (mx.num_bits n) min_key_len_in_bits large)
    where
      Q : CodecStatus → Type 0
      Q = InBounds

  -- On a buffer of less than 4 GiB whose length is passed with it, no read of a private key leaves the
  -- buffer, in any build and whatever its bytes are, though the product 2 * len wraps around: a length
  -- word that passes the test only for that reason arrives at BN_bin2bn as a negative int. A key that
  -- is read has at least the smallest number of bits.
  pub private_key_deserialize-InBounds :
      (asserts : Bool) (calloc : Call W (Unit {0})) (buffer : List ℕ)
      → length buffer < 2 ^ 32
      → Yields InBounds
          (λ key. min_key_len_in_bits ≤ mx.num_bits key.public.n)
          (private_key_deserialize bn mx zn asserts calloc (some buffer) (length buffer))
  unfolding private_key_deserialize
  private_key_deserialize-InBounds asserts calloc buffer small =
      Yields-guard Q (ltb (length buffer) 36) refused refused-InBounds λ enough.
        let room : 36 ≤ length buffer = ltb→ge (length buffer) 36 enough in
        Yields-bind Q (Yields-try Q refused calloc refused-InBounds) λ _ _.
          Yields-bind Q (read32_word Q buffer (omega arith)) λ len _.
            Yields-guard Q (asserts && not (2 * len % 2 ^ 32 == sub64 (length buffer) 4)) aborted
              aborted-InBounds
              λ _.
                Yields-guard Q (ltb (sub64 (length buffer) 4) (2 * len % 2 ^ 32)) refused
                  refused-InBounds
                  λ fits.
                    Yields-bind Q
                      (bin2bn_at_lem bn mx buffer 4 len λ int. (inside len room fits int).0)
                      λ p _.
                        Yields-bind Q
                          (bin2bn_at_lem bn mx buffer (4 + len) len
                            λ int. (inside len room fits int).1)
                          λ q _. Yields-bind Q (Yields-try Q refused bn.get refused-InBounds) λ _ _.
                            Yields-bind Q (Yields-try Q refused bn.get refused-InBounds) λ _ _.
                              Yields-bind Q (Yields-try Q refused bn.get refused-InBounds) λ _ _.
                                Yields-bind Q (Yields-try Q refused bn.get refused-InBounds) λ _ _.
                                  Yields-bind Q (present-InBounds p) λ p' _.
                                    Yields-bind Q (present-InBounds q)
                                      λ q' _. derive_key-InBounds p' q'
    where
      Q : CodecStatus → Type 0
      Q = InBounds

      inside :
          (len : ℕ)
          → 36 ≤ length buffer
          → ltb (sub64 (length buffer) 4) (2 * len % 2 ^ 32) ≡ false
          → len < 2 ^ 31
          → (4 + len ≤ length buffer) × (4 + len + len ≤ length buffer)
      inside len room fits int =
          let left = sub64_lem (length buffer) 4 (omega arith) (omega arith) in
          let le = ltb→ge (sub64 (length buffer) 4) (2 * len % 2 ^ 32) fits in
          (omega (arith, left, le, int), omega (arith, left, le, int))
