-- ===== src/Paillier/Messages/Bytes.antt =====
-- Byte strings that encrypt a plaintext, and how the functions write them.
use native.Mathlib.Nat.{dvd-zero, dvd_refl}
use audit_mpc_lib.Common.{
  ℕ, ◌<◌, ◌≤◌, ◌≡◌, ◌≢◌, refl, sym, ap, ◌∙◌, List, [], ◌∷◌, length, Option, some, true, false, not,
  ◌==◌, ◌||◌, ltb, ge→ltb, leb, from_bytes, Yields, Yields-pure, arith,
}
use audit_mpc_lib.Bignum.{Bignum, Documented}
use audit_mpc_lib.Bignum.Modexp.{Modexp, ModexpDocumented}
use audit_mpc_lib.Bignum.Integers.{Integers, IntegersDocumented}
use audit_mpc_lib.Paillier.Encryption.{Encrypts, Encrypts-Coprime}
use audit_mpc_lib.Paillier.Cipher.{PaillierStatus, unknown, PublicKey}
use audit_mpc_lib.Paillier.Cipher.Honest.{IsKey}
use audit_mpc_lib.Paillier.Messages.{output}

-- A ciphertext of `m`: a number below n2 in no more bytes than n2 has.
pub record IsCiphertext {W : Type 0} (mx : Modexp W) (key : PublicKey) (m : ℕ) (s : List ℕ)
    : Type 0 where
  pub encrypts : Encrypts key.n m (from_bytes 0 s)
  pub below : from_bytes 0 s < key.n2
  pub short : length s ≤ mx.num_bytes key.n2

-- A ciphertext of `m` was written.
pub record Stores {W : Type 0} (mx : Modexp W) (key : PublicKey) (m : ℕ) (o : Option (List ℕ))
    : Type 0 where
  pub bytes : List ℕ
  pub written : o ≡ some bytes
  pub holds : IsCiphertext mx key m bytes

-- The bytes of a number were written.
pub record Prints (n : ℕ) (o : Option (List ℕ)) : Type 0 where
  pub bytes : List ℕ
  pub written : o ≡ some bytes
  pub number : from_bytes 0 bytes ≡ n

-- An encryption is not zero.
pub Encrypts-nonzero : (n m c : ℕ) → 1 < n → Encrypts n m c → c ≢ 0
Encrypts-nonzero n m c big h e =
    absurd (omega (arith, big, Encrypts-Coprime n big m c h n (rw e (dvd-zero n)) (dvd_refl n)))

module _ {W R : Type 0} (given : R) (bn : Bignum W) (law : Documented R bn) (mx : Modexp W)
    (mlaw : ModexpDocumented R mx bn.bn2bin) (zn : Integers W)
    (zlaw : IntegersDocumented R zn mx) where
  some_bytes : (c : ℕ) → c ≢ 0 → (length (bn.bn2bin c) == 0) ≡ false
  unfolding from_bytes
  some_bytes c h = nonempty (bn.bn2bin c) λ e. h (sym (mlaw.bn2bin_lem c) ∙ ap (from_bytes 0) e)
    where
      nonempty : (s : List ℕ) → (s ≡ [] → ⊥) → (length s == 0) ≡ false
      nonempty [] h = absurd (h refl)
      nonempty (x ∷ s) h = ground arith

  pub output-Prints :
      (Q : PaillierStatus → Type 0) (c : ℕ) → c ≢ 0 → Yields Q (Prints c) (output bn c)
  unfolding output
  output-Prints Q c h = rw (some_bytes c h) (
      Yields-pure Q (some (bn.bn2bin c))
        (record { bytes = bn.bn2bin c; written = refl; number = mlaw.bn2bin_lem c }))

  pub output-Stores :
      (Q : PaillierStatus → Type 0) (key : PublicKey) (m c : ℕ)
      → IsKey key
      → Encrypts key.n m c
      → c < key.n2
      → Yields Q (Stores mx key m) (output bn c)
  unfolding output
  output-Stores Q key m c good h small = rw (some_bytes c (Encrypts-nonzero key.n m c good.big h)) (
      Yields-pure Q (some (bn.bn2bin c)) (record {
        bytes = bn.bn2bin c;
        written = refl;
        holds = record {
          encrypts = rw (mlaw.bn2bin_lem c) h;
          below = rw (mlaw.bn2bin_lem c) small;
          short = rw (mlaw.bn2bin_len c) (
              zlaw.num_bytes_le c (mx.num_bytes key.n2)
                (omega (arith, small, mlaw.num_bytes_lem key.n2)));
        };
      }))

  -- The bytes of zero are none, so that zero is refused.
  pub output_zero :
      (P : Option (List ℕ) → Type 0) → Yields {W = W} (λ e. e ≡ unknown) P (output bn 0)
  unfolding output
  output_zero P =
      rw (no_bytes (omega (arith, mlaw.bn2bin_len 0, zlaw.num_bytes_le 0 0 (omega arith))))
        (record { run = λ w. refl })
    where
      no_bytes : length (bn.bn2bin 0) ≤ 0 → (length (bn.bn2bin 0) == 0) ≡ true
      no_bytes h = ground arith

-- The tests of a buffer that is there and long enough.
pub room_test : (needed len : ℕ) → needed ≤ len → (not true || ltb len needed) ≡ false
room_test needed len h = ge→ltb len needed h

pub leb_refuses : (a b : ℕ) → b < a → leb a b ≡ false
leb_refuses a b h = ground arith
