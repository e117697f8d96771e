-- ===== src/Pedersen/Commit/Honest.antt =====
-- A commitment that was made passes the owner's check.
use audit_mpc_lib.Common.{
  ℕ, zero, suc, ◌*◌, ◌%◌, ◌^◌, ◌≤◌, ◌<◌, ◌≡◌, sym, true, some, List, [], ◌∷◌, length, arith, ==_iff,
  ge→ltb, Ensures, bind_rule, call_rule, try_rule, passes_rule, weaken_rule, from_bytes,
}
use audit_mpc_lib.Bignum.{Bignum, Documented}
use audit_mpc_lib.Bignum.Modexp.{Modexp, ModexpDocumented, Fits}
use audit_mpc_lib.Pedersen.{unknown_error, out_of_memory, PedersenPublic, PedersenPrivate}
use audit_mpc_lib.Pedersen.Commit.{create_commitment, verify_commitment}
use audit_mpc_lib.Pedersen.Commit.Agreement.{
  IsKeyPair, create_commitment_internal_lem, verify_commitment_lem, read_rule,
}

no_digits : (n k : ℕ) → 0 ≡ k → 1 < n → n < 256 ^ k → ⊥
no_digits n zero e h l = omega arith
no_digits n (suc k) e h l = absurd (omega arith)

module _ {W : Type 0} (R : Type 0) (bn : Bignum W) (law : Documented R bn) (mx : Modexp W)
    (mlaw : ModexpDocumented R mx bn.bn2bin) where
  -- What create_commitment writes: as many bytes as the modulus has, for s^x * t^r modulo n.
  abbrev IsCommitment : PedersenPublic → ℕ → ℕ → List ℕ → Type 0
  IsCommitment key x r c =
      (length c ≡ mx.num_bytes key.n) × (from_bytes 0 c ≡ key.s ^ x * key.t ^ r % key.n)

  reduced_small :
      (key : PedersenPublic) (k : ℕ) → key.n % 2 ≡ 1 → k % key.n < 256 ^ mx.num_bytes key.n
  reduced_small key k odd = omega (arith, mlaw.num_bytes_lem key.n)

  create_commitment_lem :
      (key : PedersenPublic) (a b : ℕ) (x r : List ℕ) (commitment_len : ℕ)
      → key.n % 2 ≡ 1
      → Fits key.mont key.n
      → mx.num_bytes key.n ≤ commitment_len
      → Ensures R
          (IsCommitment key (from_bytes 0 (a ∷ x)) (from_bytes 0 (b ∷ r)))
          (create_commitment bn mx (some key) (some (a ∷ x)) (some (b ∷ r)) true commitment_len).1
  unfolding create_commitment
  create_commitment_lem key a b x r commitment_len odd fits room =
      let product = key.s ^ from_bytes 0 (a ∷ x) * key.t ^ from_bytes 0 (b ∷ r) in
      let c = product % key.n in
      passes_rule R _ (ge→ltb commitment_len (mx.num_bytes key.n) room) (
        call_rule R out_of_memory bn.ctx_new law.ctx_new_lem λ _ _.
          call_rule R out_of_memory bn.get law.get_lem λ _ _.
            call_rule R out_of_memory bn.get law.get_lem λ _ _.
              bind_rule R (read_rule R bn law mx mlaw (a ∷ x)) λ nx hx. rw hx (
                bind_rule R (read_rule R bn law mx mlaw (b ∷ r)) λ nr hr. rw hr (
                  bind_rule R
                    (create_commitment_internal_lem R bn law mx mlaw key (from_bytes 0 (a ∷ x))
                      (from_bytes 0 (b ∷ r)) odd fits)
                    λ m hm. rw hm (
                      try_rule R unknown_error (bn.bn2binpad c (mx.num_bytes key.n)) (λ w.
                        law.bn2binpad_lem c (mx.num_bytes key.n) w
                          (reduced_small key product odd))))))

  checked :
      (key : PedersenPrivate) (a b : ℕ) (x r c : List ℕ)
      → IsKeyPair key
      → IsCommitment key.public (from_bytes 0 (a ∷ x)) (from_bytes 0 (b ∷ r)) c
      → Ensures R
          (λ _. Unit {0})
          (verify_commitment bn mx (some key) (some (a ∷ x)) (some (b ∷ r)) (some c))
  checked key a b x r [] pair h = absurd (
      no_digits key.public.n (mx.num_bytes key.public.n) h.0 pair.n_large
        (mlaw.num_bytes_lem key.public.n))
  checked key a b x r (c ∷ cs) pair h =
      (verify_commitment_lem R bn law mx mlaw key a b c x r cs pair h.0).accepts
        ((==_iff _ _).1 (sym h.1))

  -- What is made with the public key, into a buffer as long as the modulus, passes the check of the
  -- key's owner, with the same numbers, of one byte or more: neither call fails unless memory runs out.
  pub create_commitment-verify :
      (key : PedersenPrivate) (a b : ℕ) (x r : List ℕ) (commitment_len : ℕ)
      → IsKeyPair key
      → mx.num_bytes key.public.n ≤ commitment_len
      → Ensures R
          (λ c.
            Ensures R
              (λ _. Unit {0})
              (verify_commitment bn mx (some key) (some (a ∷ x)) (some (b ∷ r)) (some c)))
          (create_commitment bn mx
            (some key.public)
            (some (a ∷ x))
            (some (b ∷ r))
            true
            commitment_len).1
  create_commitment-verify key a b x r commitment_len pair room =
      weaken_rule R
        (create_commitment_lem key.public a b x r commitment_len pair.n_odd pair.mont_fits room)
        λ c h. checked key a b x r c pair h
