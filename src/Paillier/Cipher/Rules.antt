-- ===== src/Paillier/Cipher/Rules.antt =====
-- What the two forms of the cleanup make of a result.
use audit_mpc_lib.Common.{ℕ, ◌≡◌, Result, ok, err, Action, Outcome, Yields}
use audit_mpc_lib.Bignum.Modexp.{Modexp}
use audit_mpc_lib.Bignum.Integers.{Integers, IntegersDocumented}
use audit_mpc_lib.Paillier.Cipher.{
  PaillierStatus, unknown, keylen_too_short, invalid_plain_text, invalid_cipher_text,
  invalid_randomness, invalid_key, invalid_param, out_of_memory, spinning, null_read, aborted,
  invalid_proof, buffer_too_short, openssl, report, settle, settle_result, overwrite,
  overwrite_result,
}

-- No code of OpenSSL's.
abbrev pub Own : (PaillierStatus → Type 0) → Type 0
Own Q = (e : ℕ) → ¬ (Q (openssl e))

module _ {W : Type 0} (zn : Integers W) where
  settle-Outcome :
      {A : Type 0} (Q : PaillierStatus → Type 0) (P : A → Type 0) (old : A)
      (r : Result PaillierStatus A) (w : W)
      → Own Q
      → Outcome Q P r
      → Outcome Q P (settle_result zn old r w).0
  unfolding settle_result
  settle-Outcome Q P old (ok a) w own h = h
  settle-Outcome Q P old (err (openssl e)) w own h = absurd (own e h)
  settle-Outcome Q P old (err unknown) w own h = h
  settle-Outcome Q P old (err keylen_too_short) w own h = h
  settle-Outcome Q P old (err invalid_plain_text) w own h = h
  settle-Outcome Q P old (err invalid_cipher_text) w own h = h
  settle-Outcome Q P old (err invalid_randomness) w own h = h
  settle-Outcome Q P old (err invalid_key) w own h = h
  settle-Outcome Q P old (err invalid_param) w own h = h
  settle-Outcome Q P old (err out_of_memory) w own h = h
  settle-Outcome Q P old (err spinning) w own h = h
  settle-Outcome Q P old (err null_read) w own h = h
  settle-Outcome Q P old (err aborted) w own h = h
  settle-Outcome Q P old (err invalid_proof) w own h = h
  settle-Outcome Q P old (err buffer_too_short) w own h = h

  -- The usual cleanup passes on what does not come from OpenSSL.
  pub settle_rule :
      {A : Type 0} (Q : PaillierStatus → Type 0) {P : A → Type 0} (old : A)
      {m : Action W PaillierStatus A}
      → Own Q
      → Yields Q P m
      → Yields Q P (settle zn old m)
  unfolding settle
  settle_rule Q {P} old {m} own y = record {
    run = λ w. settle-Outcome Q P old (m w).0 (m w).1 own (y.run w);
  }

  module _ {R : Type 0} (given : R) (mx : Modexp W) (zlaw : IntegersDocumented R zn mx) where
    pub report_rule :
        {A : Type 0} (Q : PaillierStatus → Type 0) {P : A → Type 0} (a : A)
        → P a
        → Yields Q P (report zn a)
    unfolding report
    report_rule Q {P} a p = record { run = λ w. rw (zlaw.get_error_lem w given) p }

    overwrite_ok :
        {A : Type 0} (Q : PaillierStatus → Type 0) (P : A → Type 0) (old : A)
        (r : Result PaillierStatus A) (w : W)
        → Outcome (λ _. ⊥) P r
        → Outcome Q P (overwrite_result zn old r w).0
    unfolding overwrite_result
    overwrite_ok Q P old (ok a) w h = (report_rule Q a h).run w
    overwrite_ok Q P old (err e) w h = absurd h

    -- The reversed cleanup passes a result on where no error is queued,
    pub overwrite_rule :
        {A : Type 0} (Q : PaillierStatus → Type 0) {P : A → Type 0} (old : A)
        {m : Action W PaillierStatus A}
        → Yields (λ _. ⊥) P m
        → Yields Q P (overwrite zn old m)
    unfolding overwrite
    overwrite_rule Q {P} old {m} y = record {
      run = λ w. overwrite_ok Q P old (m w).0 (m w).1 (y.run w);
    }

    overwrite_err :
        {A : Type 0} (Q : PaillierStatus → Type 0) (P : A → Type 0) (old : A)
        (r : Result PaillierStatus A) (w : W)
        → P old
        → Outcome (λ e. e ≡ invalid_cipher_text) (λ _. ⊥) r
        → Outcome Q P (overwrite_result zn old r w).0
    unfolding overwrite_result
    overwrite_err Q P old (ok a) w p h = absurd h
    overwrite_err Q P old (err e) w p h = rw h ((report_rule Q old p).run w)

    -- and it makes a success of a refusal.
    pub overwrite_refusal :
        {A : Type 0} (Q : PaillierStatus → Type 0) {P : A → Type 0} (old : A)
        {m : Action W PaillierStatus A}
        → P old
        → Yields (λ e. e ≡ invalid_cipher_text) (λ _. ⊥) m
        → Yields Q P (overwrite zn old m)
    unfolding overwrite
    overwrite_refusal Q {P} old {m} p y = record {
      run = λ w. overwrite_err Q P old (m w).0 (m w).1 p (y.run w);
    }
