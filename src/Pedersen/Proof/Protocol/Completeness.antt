-- ===== src/Pedersen/Proof/Protocol/Completeness.antt =====
-- The verifier of the parameters accepts what the owner of the key makes.
use audit_mpc_lib.Common.{
  ℕ, zero, suc, ◌+◌, ◌%◌, ◌≤◌, ◌<◌, ◌≡◌, refl, sym, ap, ◌∙◌, inl, inr, Bool, true, false, Option,
  some, List, [], ◌∷◌, length, All, ◌==◌, if◌then◌else◌, Action, Call, Documents, Ensures, Meets,
  Result, ok, err, pure, pure_rule, bind_rule, try_rule, call_rule, passes_rule, map_err_rule,
  weaken_rule, ge→ltb,
}
use audit_mpc_lib.Common.Sha.{Sha256}
use audit_mpc_lib.Bignum.{Bignum, Documented}
use audit_mpc_lib.Bignum.Modexp.{Modexp, ModexpDocumented, Fits}
use audit_mpc_lib.Drng.{Drng, overlaps, refill}
use audit_mpc_lib.Drng.Stream.{
  IsValid, next_byte, next_bytes, next_bytes-suc, length-next_bytes, refill-IsValid,
}
use audit_mpc_lib.Drng.Rules.{new_rule}
use audit_mpc_lib.Zkp.{unknown_error, out_of_memory}
use audit_mpc_lib.Pedersen.{PedersenPrivate, statistical_security}
use audit_mpc_lib.Pedersen.Commit.Agreement.{IsKeyPair, mont_rule}
use audit_mpc_lib.Pedersen.Proof.{
  zkp, ParamProof, calls, draw_pairs, respond_pairs, serialized_size,
}
use audit_mpc_lib.Pedersen.Proof.Protocol.{param_zkp_generate, param_zkp_verify}
use audit_mpc_lib.Pedersen.Proof.Protocol.Seed.{Padding, seed_of, generate_zkp_seed_lem}
use audit_mpc_lib.Pedersen.Proof.Protocol.Format.{proof_bytes, Wrote, serialize_param_zkp_lem}
use audit_mpc_lib.Pedersen.Proof.Protocol.Equations.{equations, read_e_lem}
use audit_mpc_lib.Pedersen.Proof.Protocol.Decision.{
  init_rule, Checked, challenges, param_zkp_verify_lem,
}
use audit_mpc_lib.Pedersen.Proof.Protocol.Answers.{
  Drawn, response, answered, hashed-answered, length-answered, answered-equations, Reduced,
  Drawn-Fitting, answered-Fitting,
}

module _ {W : Type 0} (R : Type 0) (bn : Bignum W) (law : Documented R bn) (mx : Modexp W)
    (mlaw : ModexpDocumented R mx bn.bn2bin) where
  draw_pairs_lem :
      (key : PedersenPrivate) (mont : Option ℕ) (count : ℕ)
      → IsKeyPair key
      → Fits mont key.public.n
      → Ensures R
          (λ pairs. All (Drawn key) pairs × (length pairs ≡ count))
          (draw_pairs bn mx key mont count)
  unfolding draw_pairs
  draw_pairs_lem key mont zero pair fits = pure_rule R [] (tt, refl)
  draw_pairs_lem key mont (suc count) pair fits =
      call_rule R (zkp unknown_error) (bn.rand_range key.phi_n)
        (λ w. law.rand_range_lem key.phi_n w pair.phi_pos)
        λ z hz.
          call_rule R (zkp unknown_error) (mx.mod_exp_mont key.public.t z key.public.n mont)
            (λ w. mlaw.mod_exp_mont_lem key.public.t z key.public.n mont w pair.n_odd fits)
            λ a ha.
              bind_rule R (draw_pairs_lem key mont count pair fits)
                λ rest h. pure_rule R ((a, z) ∷ rest) (((ha, hz), h.0), ap suc h.1)

  module _ (sha512 : List ℕ → List ℕ) (sha512_len : (m : List ℕ) → length (sha512 m) ≡ 64)
      (rng_address e_address : ℕ) (apart : overlaps rng_address e_address 1 ≡ false) where
    response_rule :
        (key : PedersenPrivate) (e z : ℕ)
        → z < key.phi_n
        → Reduced key
        → Ensures R
            (λ r. r ≡ response key e z)
            (if e % 2 == 1
              then calls unknown_error (bn.mod_add_quick z key.lamda key.phi_n)
              else pure z)
    response_rule key e z small reduced = chosen (e % 2 == 1)
      where
        chosen :
            (odd : Bool)
            → Ensures R
                (λ r. r ≡ (if odd then (z + key.lamda) % key.phi_n else z))
                (if odd
                  then calls unknown_error (bn.mod_add_quick z key.lamda key.phi_n)
                  else pure z)
        chosen true =
            try_rule R (zkp unknown_error) (bn.mod_add_quick z key.lamda key.phi_n)
              (λ w. law.mod_add_quick_lem z key.lamda key.phi_n w small reduced.lamda_lt)
        chosen false = pure_rule R z refl

    respond_pairs_lem :
        (key : PedersenPrivate) (pairs : ParamProof) (rng : Drng)
        → Reduced key
        → All (Drawn key) pairs
        → IsValid rng
        → Ensures R
            (λ proof. proof ≡ answered key (next_bytes sha512 (length pairs) rng).0 pairs)
            (respond_pairs bn mx sha512 rng_address e_address key pairs rng)
    unfolding respond_pairs
    respond_pairs_lem key [] rng reduced drawn v = pure_rule R [] refl
    respond_pairs_lem key ((a, z) ∷ pairs) rng reduced (now, later) v =
        bind_rule R (read_e_lem R sha512 sha512_len rng_address e_address apart unknown_error rng v)
          λ r h. rw h.0 (
            bind_rule R (response_rule key (next_byte sha512 rng).0 z now.1 reduced) λ z' hz.
              bind_rule R (respond_pairs_lem key pairs (next_byte sha512 rng).1 reduced later h.1)
                λ rest hr.
                  pure_rule R ((a, z') ∷ rest)
                    (rw (next_bytes-suc sha512 (length pairs) rng, hz, hr) refl))

  module _ (sha512 : List ℕ → List ℕ) (sha512_len : (m : List ℕ) → length (sha512 m) ≡ 64)
      (rng_address e_address : ℕ) (apart : overlaps rng_address e_address 1 ≡ false)
      (padded : ℕ → ℕ → List ℕ) (pad : Padding R bn padded) (sha : Sha256)
      (malloc : Call W (Unit {0}))
      (malloc_lem : (w : W) → Documents (¬ R) (λ _. Unit {0}) (malloc w).0) where
    -- Once memory has run out, nothing is claimed.
    nothing_left : {E : Type 0} (m : Action W E (Unit {0})) → ¬ R → Ensures R (λ _. Unit {0}) m
    nothing_left {E} m out = record { run = λ w. anything (m w).0 }
      where
        anything : (r : Result E (Unit {0})) → Meets R (λ _. Unit {0}) r
        anything (ok u) = tt
        anything (err e) = out

    accepted :
        (key : PedersenPrivate) (m : ℕ) (aad : List ℕ) (pairs : ParamProof) (bytes : List ℕ)
        → IsKeyPair key
        → Reduced key
        → Checked R bn law mx mlaw sha512 sha512_len rng_address e_address apart key.public
        → All (Drawn key) pairs
        → length pairs ≡ statistical_security
        → Wrote R bn law padded pad
            (proof_bytes padded (mx.num_bytes key.public.n) (
              answered key
                (next_bytes sha512 (length pairs) (
                  refill sha512
                    (seed_of sha padded (mx.num_bytes key.public.n) key.public pairs (m ∷ aad)))).0
                pairs))
            bytes
        → Ensures R
            (λ _. Unit {0})
            (param_zkp_verify bn mx sha sha512 malloc rng_address e_address
              (some key.public)
              (some (m ∷ aad))
              (some bytes)
              (length bytes))
    accepted key m aad pairs bytes pair small good drawn len (inr out) = nothing_left _ out
    accepted key m aad pairs bytes pair small good drawn len (inl e) =
        let size = mx.num_bytes key.public.n in
        let seed = seed_of sha padded size key.public pairs (m ∷ aad) in
        let es = (next_bytes sha512 (length pairs) (refill sha512 seed)).0 in
        let proof = answered key es pairs in
        let same : challenges R bn law mx mlaw sha512 sha512_len rng_address e_address apart padded
              pad sha malloc malloc_lem key.public (m ∷ aad) proof
            ≡ es =
          ap (λ c. (next_bytes sha512 statistical_security (refill sha512 (sha.final c))).0)
            (hashed-answered sha padded size key es pairs _)
          ∙ ap (λ k. (next_bytes sha512 k (refill sha512 seed)).0) (sym len) in
        rw e (
          (param_zkp_verify_lem R bn law mx mlaw sha512 sha512_len rng_address e_address apart
              padded pad sha malloc malloc_lem key.public m aad proof good
              (length-answered key es pairs ∙ len)
              (answered-Fitting key size es pairs pair small (mlaw.num_bytes_lem key.public.n)
                drawn)).accepts
            (ap (λ cs. equations key.public cs proof) same
              ∙ answered-equations key es pairs pair
                  (length-next_bytes sha512 (length pairs) (refill sha512 seed)) drawn))

    -- The owner of a key, whose parameters pass the code's checks, makes a proof into a buffer that is
    -- long enough, and the verifier accepts it with the same data to bind, which is not empty: neither
    -- call fails unless memory or randomness runs out.
    pub param_zkp_generate-verify :
        (key : PedersenPrivate) (m : ℕ) (aad buffer : List ℕ) (proof_len : ℕ)
        → IsKeyPair key
        → Reduced key
        → Checked R bn law mx mlaw sha512 sha512_len rng_address e_address apart key.public
        → serialized_size bn mx key.public ≤ proof_len
        → Ensures R
            (λ bytes.
              Ensures R
                (λ _. Unit {0})
                (param_zkp_verify bn mx sha sha512 malloc rng_address e_address
                  (some key.public)
                  (some (m ∷ aad))
                  (some bytes)
                  (length bytes)))
            (param_zkp_generate bn mx sha sha512 malloc rng_address e_address
              (some key)
              (some (m ∷ aad))
              (some buffer)
              proof_len).1
    unfolding param_zkp_generate
    param_zkp_generate-verify key m aad buffer proof_len pair small good room =
        let size = mx.num_bytes key.public.n in
        let fits = mlaw.num_bytes_lem key.public.n in
        passes_rule R _ (ge→ltb proof_len (serialized_size bn mx key.public) room) (
          call_rule R (zkp out_of_memory) bn.ctx_new law.ctx_new_lem λ _ _.
            bind_rule R (mont_rule R bn law mx mlaw key.public pair.mont_fits) λ mont fitting.
              bind_rule R
                (init_rule R bn law mx mlaw sha512 sha512_len rng_address e_address apart
                  statistical_security)
                λ _ _.
                  bind_rule R (draw_pairs_lem key mont statistical_security pair fitting)
                    λ pairs (drawn, len).
                      let seed = seed_of sha padded size key.public pairs (m ∷ aad) in
                      bind_rule R
                        (map_err_rule R (λ _. zkp unknown_error)
                          (generate_zkp_seed_lem R bn padded pad sha mx malloc malloc_lem key.public
                            pairs (m ∷ aad) fits good.s_le good.t_le
                            (Drawn-Fitting key size pairs pair small fits drawn)))
                        λ s es. rw es (
                          bind_rule R
                            (map_err_rule R (λ _. zkp unknown_error)
                              (new_rule R sha512 malloc malloc_lem seed (sha.final_len _)))
                            λ rng er. rw er (
                              bind_rule R
                                (respond_pairs_lem sha512 sha512_len rng_address e_address apart key
                                  pairs (refill sha512 seed) small drawn
                                  (refill-IsValid sha512 sha512_len seed))
                                λ proof ep. rw ep (
                                  weaken_rule R
                                    (serialize_param_zkp_lem R bn law padded pad mx
                                      (answered key
                                        (next_bytes sha512 (length pairs) (refill sha512 seed)).0
                                        pairs)
                                      key.public.n buffer
                                      (answered-Fitting key size _ pairs pair small fits drawn))
                                    λ bytes wrote.
                                      accepted key m aad pairs bytes pair small good drawn len
                                        wrote))))
