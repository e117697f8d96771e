-- ===== src/Pedersen/Codec.antt =====
-- The byte formats of the keys. A buffer is the list of its bytes, and its length is passed with it.
-- The outcomes `out_of_bounds`, a read behind the buffer's end, `aborted`, a failed assert, and
-- `null_written`, a write through NULL, are the model's own. `asserts` says whether the build keeps its
-- asserts: src/common/CMakeLists.txt drops them (NDEBUG) from every build that is not a debug build.
pub mod Safety
pub mod Fields
pub mod PublicBytes
pub mod RoundTrip
use audit_mpc_lib.Common.{
  ℕ, ◌+◌, ◌*◌, ◌%◌, ◌^◌, Bool, true, false, not, ◌&&◌, ◌||◌, Option, none, some, List, [], ◌∷◌,
  ◌++◌, length, take, drop, ltb, leb, ◌==◌, if◌then◌else◌, Result, ok, err, Action, Call, pure,
  fail, fail_if, try, ◌>>=◌, ◌>>◌, sub32, sub64, put32, get32,
}
use audit_mpc_lib.Bignum.{Bignum}
use audit_mpc_lib.Bignum.Modexp.{Modexp}
use audit_mpc_lib.Pedersen.{PedersenPublic, PedersenPrivate, min_key_len_in_bits}

pub data CodecStatus : Type 0 where
  refused out_of_bounds aborted null_written : CodecStatus

module _ {W : Type 0} (bn : Bignum W) (mx : Modexp W) where
  -- A length and the digits.
  abbrev pub field : ℕ → List ℕ
  field n = put32 (mx.num_bytes n) ++ bn.bn2bin n

  -- The length needed, which is returned in any case, and what is written, where the buffer is there
  -- and long enough.
  unfoldable pub public_serialize_internal : PedersenPublic → Bool → ℕ → ℕ × Option (List ℕ)
  public_serialize_internal key buffer buffer_len =
      let needed_len =
        (4 * 3 + mx.num_bytes key.n + mx.num_bytes key.s + mx.num_bytes key.t) % 2 ^ 32 in
      if not buffer || ltb buffer_len needed_len
      then (needed_len, none)
      else (needed_len, some (field key.n ++ (field key.s ++ field key.t)))

  -- The buffer and the real length.
  unfoldable pub public_serialize : Option PedersenPublic → Bool → ℕ → Option (List ℕ) × Option ℕ
  public_serialize none buffer buffer_len = (none, none)
  public_serialize (some key) buffer buffer_len =
      let (needed_len, written) = public_serialize_internal key buffer buffer_len in
      (if not buffer || ltb buffer_len needed_len then none else written, some needed_len)

  unfoldable pub private_serialize : Option PedersenPrivate → Bool → ℕ → Option (List ℕ) × Option ℕ
  private_serialize none buffer buffer_len = (none, none)
  private_serialize (some key) buffer buffer_len =
      let needed_len =
        ((public_serialize_internal key.public false 0).0
          + 4 * 2
          + mx.num_bytes key.lamda
          + mx.num_bytes key.phi_n)
        % 2 ^ 32 in
      let (len, written) = public_serialize_internal key.public buffer buffer_len in
      (
        if not buffer || ltb buffer_len needed_len then none else elim written [
          | none ↦ none
          | some bytes ↦ some (bytes ++ (field key.lamda ++ field key.phi_n))
        ],
        some needed_len,
      )

  unfoldable pub public_size : Option PedersenPublic → ℕ
  public_size (some key) = mx.num_bytes key.n * 8 % 2 ^ 32
  public_size none = 0

-- `*(uint32_t*)p` and the bytes that BN_bin2bn reads, at an offset.
unfoldable pub read32 : {W : Type 0} → List ℕ → ℕ → Action W CodecStatus ℕ
read32 buffer p =
    if leb (p + 4) (length buffer) then pure (get32 (drop p buffer)) else fail out_of_bounds

unfoldable pub read_bytes : {W : Type 0} → List ℕ → ℕ → ℕ → Action W CodecStatus (List ℕ)
read_bytes buffer p len =
    if leb (p + len) (length buffer) then pure (take len (drop p buffer)) else fail out_of_bounds

-- A library call whose failure is looked at later.
abbrev pub attempt : {W E A : Type 0} → Call W A → Action W E (Option A)
attempt call w = let (r, w') = call w in (ok r, w')

-- `BN_set_flags` writes to the number.
abbrev pub flagged : {W : Type 0} → Option ℕ → Action W CodecStatus ℕ
flagged (some n) = pure n
flagged none = fail null_written

module _ {W : Type 0} (bn : Bignum W) where
  open bn use {bin2bn, bin2bn_negative}

  -- BN_bin2bn at an offset. The length is an int there: from 2 ^ 31 on it arrives negative.
  unfoldable pub bin2bn_at : List ℕ → ℕ → ℕ → Action W CodecStatus (Option ℕ)
  unfolding read_bytes
  bin2bn_at buffer p len =
      if ltb len (2 ^ 31)
      then (read_bytes buffer p len >>= λ bytes. attempt (bin2bn bytes))
      else attempt bin2bn_negative

  -- One number: its length, which has to leave `slack` of the bytes that are left, and its digits.
  -- Returns the number, the next offset and what is left.
  unfoldable pub read_number : ℕ → List ℕ → ℕ → ℕ → Action W CodecStatus (Option ℕ × ℕ × ℕ)
  read_number slack buffer p buffer_len = do
    len ← read32 buffer p
    fail_if (ltb (sub64 buffer_len slack) len) refused
    n ← bin2bn_at buffer (p + 4) len
    pure (n, p + 4 + len, sub32 (sub32 buffer_len 4) len)

module _ {W : Type 0} (bn : Bignum W) (mx : Modexp W) where
  -- The checks on the numbers that were read.
  unfoldable pub accept_public :
      Option ℕ → Option ℕ → Option ℕ → ℕ → Action W CodecStatus (PedersenPublic × ℕ)
  accept_public (some n) (some s) (some t) len = do
    fail_if (ltb (mx.num_bits n) min_key_len_in_bits) refused
    fail_if (ltb n s || ltb n t) refused
    pure (record { n = n; s = s; t = t; mont = none }, len)
  accept_public _ _ _ len = fail refused

  unfoldable pub public_deserialize_internal :
      Option (List ℕ) → ℕ → Action W CodecStatus (PedersenPublic × ℕ)
  public_deserialize_internal none buffer_len = fail refused
  public_deserialize_internal (some buffer) buffer_len = do
    fail_if (ltb buffer_len (4 * 3)) refused
    (n, p, left) ← read_number bn (4 * 3) buffer 0 buffer_len
    (s, p', left') ← read_number bn (4 * 2) buffer p left
    (t, p'', left'') ← read_number bn 4 buffer p' left'
    accept_public n s t p''

module _ {W : Type 0} (asserts : Bool) (bn : Bignum W) (mx : Modexp W)
    (calloc : Call W (Unit {0})) where
  unfoldable pub public_deserialize : Option (List ℕ) → ℕ → Action W CodecStatus PedersenPublic
  public_deserialize buffer buffer_len = do
    try refused calloc
    (key, len) ← public_deserialize_internal bn mx buffer buffer_len
    fail_if (asserts && not (buffer_len == len)) aborted
    pure key

  unfoldable pub private_deserialize : Option (List ℕ) → ℕ → Action W CodecStatus PedersenPrivate
  private_deserialize none buffer_len = do try refused calloc; fail refused
  private_deserialize (some buffer) buffer_len = do
    try refused calloc
    (key, len) ← public_deserialize_internal bn mx (some buffer) buffer_len
    let left = sub32 buffer_len len
    fail_if (ltb left (4 * 2)) refused
    (lamda, p, left') ← read_number bn (4 * 2) buffer len left
    lamda ← flagged lamda
    (phi_n, p', left'') ← read_number bn 4 buffer p left'
    phi_n ← flagged phi_n
    fail_if (asserts && not (left'' == 0)) aborted
    pure (record { public = key; lamda = lamda; phi_n = phi_n })
