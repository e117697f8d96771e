-- ===== src/Pedersen/Codec/Safety.antt =====
-- Reading a key never leaves the buffer, and a key that is read meets the code's checks.
use audit_mpc_lib.Common.{
  Bool, ◌&&◌, Bool-cases, inl, inr, ℕ, ◌+◌, ◌-◌, ◌^◌, ◌≤◌, ◌<◌, ◌≡◌, ◌≢◌, refl, not, ◌||◌, Option,
  none, some, List, length, take, drop, arith, ltb, le→leb, ltb→ge, ◌==◌, Call, sub32, sub64,
  sub32_lem, sub64_lem, sub32-sub32, get32, Yields, Yields-pure, Yields-fail, Yields-bind,
  Yields-guard, Yields-try,
}
use audit_mpc_lib.Bignum.{Bignum}
use audit_mpc_lib.Bignum.Modexp.{Modexp}
use audit_mpc_lib.Pedersen.{PedersenPublic, min_key_len_in_bits}
use audit_mpc_lib.Pedersen.Codec.{
  CodecStatus, refused, out_of_bounds, aborted, null_written, read32, read_bytes, bin2bn_at,
  attempt, flagged, read_number, accept_public, public_deserialize_internal, public_deserialize,
  private_deserialize,
}

-- No read behind the end.
abbrev pub InBounds : CodecStatus → Type 0
InBounds e = e ≢ out_of_bounds

pub refused-InBounds : InBounds refused
refused-InBounds h = cc

module _ {W : Type 0} where
  read32_lem :
      (buffer : List ℕ) (p : ℕ)
      → p + 4 ≤ length buffer
      → Yields {W = W} InBounds (λ _. Unit {0}) (read32 buffer p)
  unfolding read32
  read32_lem buffer p h =
      rw (le→leb (p + 4) (length buffer) h) (Yields-pure InBounds (get32 (drop p buffer)) tt)

  read_bytes_lem :
      (buffer : List ℕ) (p len : ℕ)
      → p + len ≤ length buffer
      → Yields {W = W} InBounds (λ _. Unit {0}) (read_bytes buffer p len)
  unfolding read_bytes
  read_bytes_lem buffer p len h =
      rw (le→leb (p + len) (length buffer) h) (Yields-pure InBounds (take len (drop p buffer)) tt)

module _ {W : Type 0} (bn : Bignum W) (mx : Modexp W) where
  attempt_lem : (call : Call W ℕ) → Yields InBounds (λ _. Unit {0}) (attempt call)
  attempt_lem call = record { run = λ w. tt }

  -- A length whose bytes are in the buffer, or one that is negative as an int.
  pub bin2bn_at_lem :
      (buffer : List ℕ) (p len : ℕ)
      → (len < 2 ^ 31 → p + len ≤ length buffer)
      → Yields InBounds (λ _. Unit {0}) (bin2bn_at bn buffer p len)
  unfolding bin2bn_at
  bin2bn_at_lem buffer p len h = elim (Bool-cases (ltb len (2 ^ 31))) [
    | inl small ↦ rw small (
        Yields-bind InBounds (read_bytes_lem buffer p len (h (ground (arith, small))))
          λ bytes _. attempt_lem (bn.bin2bn bytes))
    | inr large ↦ rw large (attempt_lem bn.bin2bn_negative)
  ]

  -- What is left after a number, behind its offset.
  pub record Rest (buffer : List ℕ) (slack p left : ℕ) : Type 0 where
    pub ends : p + left ≡ length buffer
    pub enough : slack ≤ left

  read_number_lem :
      (slack : ℕ) (buffer : List ℕ) (p left : ℕ)
      → length buffer < 2 ^ 32
      → Rest buffer (4 + slack) p left
      → Yields InBounds (λ r. Rest buffer slack r.1 r.2) (read_number bn (4 + slack) buffer p left)
  unfolding read_number
  read_number_lem slack buffer p left small rest =
      Yields-bind InBounds (read32_lem buffer p (omega (arith, rest.ends, rest.enough))) λ len _.
        Yields-guard InBounds (ltb (sub64 left (4 + slack)) len) refused refused-InBounds λ fits.
          let room : 4 + slack + len ≤ left = omega (
            arith,
            ltb→ge (sub64 left (4 + slack)) len fits,
            sub64_lem left (4 + slack) (omega (arith, rest.enough)) (omega (arith, rest.ends)),
            rest.enough,
          ) in
          Yields-bind InBounds
            (bin2bn_at_lem buffer (p + 4) len λ _. omega (arith, rest.ends, room))
            λ n _.
              Yields-pure InBounds (n, p + 4 + len, sub32 (sub32 left 4) len)
                (record {
                  ends = omega (
                    arith,
                    sub32-sub32 left 4 len (omega arith) (omega (arith, rest.ends)),
                    rest.ends,
                  );
                  enough =
                      omega
                        (arith, sub32-sub32 left 4 len (omega arith) (omega (arith, rest.ends)));
                })

  -- What the code checks of a key that it read.
  pub record IsRead (key : PedersenPublic) : Type 0 where
    pub n_bits : min_key_len_in_bits ≤ mx.num_bits key.n
    pub s_le : key.s ≤ key.n
    pub t_le : key.t ≤ key.n
    pub mont_lem : key.mont ≡ none

  accept_public_lem :
      (n s t : Option ℕ) (len bound : ℕ)
      → len ≤ bound
      → Yields {W = W} InBounds (λ r. IsRead r.0 × (r.1 ≤ bound)) (accept_public bn mx n s t len)
  unfolding accept_public
  accept_public_lem (some n) (some s) (some t) len bound h =
      Yields-guard InBounds (ltb (mx.num_bits n) min_key_len_in_bits) refused refused-InBounds
        λ long. Yields-guard InBounds (ltb n s || ltb n t) refused refused-InBounds λ fit.
          Yields-pure InBounds (record { n = n; s = s; t = t; mont = none }, len)
            (
              record {
                n_bits = ltb→ge _ _ long;
                s_le = ground arith;
                t_le = ground arith;
                mont_lem = refl;
              },
              h,
            )
  accept_public_lem (some n) (some s) none len bound h =
      Yields-fail InBounds refused refused-InBounds
  accept_public_lem (some n) none t len bound h = Yields-fail InBounds refused refused-InBounds
  accept_public_lem none s t len bound h = Yields-fail InBounds refused refused-InBounds

  internal_lem :
      (buffer : List ℕ)
      → length buffer < 2 ^ 32
      → Yields InBounds
          (λ r. IsRead r.0 × (r.1 ≤ length buffer))
          (public_deserialize_internal bn mx (some buffer) (length buffer))
  unfolding public_deserialize_internal
  internal_lem buffer small =
      Yields-guard InBounds (ltb (length buffer) 12) refused refused-InBounds λ long.
        Yields-bind InBounds
          (read_number_lem 8 buffer 0 (length buffer) small
            (record { ends = omega arith; enough = ltb→ge _ _ long }))
          λ first rest.
            Yields-bind InBounds (read_number_lem 4 buffer first.1 first.2 small rest)
              λ second rest'.
                Yields-bind InBounds (read_number_lem 0 buffer second.1 second.2 small rest')
                  λ third rest''.
                    accept_public_lem first.0 second.0 third.0 third.1 (length buffer)
                      (omega (arith, rest''.ends))

  module _ (asserts : Bool) (calloc : Call W (Unit {0})) where
    aborted-InBounds : InBounds aborted
    aborted-InBounds h = cc

    public_lem :
        (buffer : List ℕ)
        → length buffer < 2 ^ 32
        → Yields InBounds IsRead
            (public_deserialize asserts bn mx calloc (some buffer) (length buffer))
    unfolding public_deserialize
    public_lem buffer small =
        Yields-bind InBounds (Yields-try InBounds refused calloc refused-InBounds) λ _ _.
          Yields-bind InBounds (internal_lem buffer small) λ r h.
            Yields-guard InBounds (asserts && not (length buffer == r.1)) aborted aborted-InBounds
              λ _. Yields-pure InBounds r.0 h.0

    flagged_lem : (n : Option ℕ) → Yields {W = W} InBounds (λ _. Unit {0}) (flagged n)
    flagged_lem (some n) = Yields-pure InBounds n tt
    flagged_lem none = Yields-fail InBounds null_written (λ h. cc)

    private_lem :
        (buffer : List ℕ)
        → length buffer < 2 ^ 32
        → Yields InBounds
            (λ key. IsRead key.public)
            (private_deserialize asserts bn mx calloc (some buffer) (length buffer))
    unfolding private_deserialize
    private_lem buffer small =
        Yields-bind InBounds (Yields-try InBounds refused calloc refused-InBounds) λ _ _.
          Yields-bind InBounds (internal_lem buffer small) λ r h.
            let left : sub32 (length buffer) r.1 ≡ length buffer - r.1 =
              sub32_lem (length buffer) r.1 h.1 small in
            Yields-guard InBounds (ltb (sub32 (length buffer) r.1) 8) refused refused-InBounds
              λ long.
                Yields-bind InBounds
                  (read_number_lem 4 buffer r.1 (sub32 (length buffer) r.1) small
                    (record { ends = omega (arith, left); enough = ltb→ge _ _ long }))
                  λ first rest. Yields-bind InBounds (flagged_lem first.0) λ lamda _.
                    Yields-bind InBounds (read_number_lem 0 buffer first.1 first.2 small rest)
                      λ second rest'. Yields-bind InBounds (flagged_lem second.0) λ phi_n _.
                        Yields-guard InBounds (asserts && not (second.2 == 0)) aborted
                          aborted-InBounds
                          λ _.
                            Yields-pure InBounds
                              (record { public = r.0; lamda = lamda; phi_n = phi_n }) h.0

    -- On a buffer of less than 4 GiB whose length is passed with it, neither function that reads a key
    -- reads behind the buffer's end, whatever its bytes are, with asserts and without them, and a key that is returned has a modulus
    -- of 256 bits or more, s and t up to the modulus, and no Montgomery context.
    pub deserialize-InBounds :
        (buffer : List ℕ)
        → length buffer < 2 ^ 32
        → Yields InBounds IsRead
            (public_deserialize asserts bn mx calloc (some buffer) (length buffer))
          × Yields InBounds
              (λ key. IsRead key.public)
              (private_deserialize asserts bn mx calloc (some buffer) (length buffer))
    deserialize-InBounds buffer small = (public_lem buffer small, private_lem buffer small)
