-- ===== src/Pedersen/Proof/Protocol/Format.antt =====
-- A proof that is written is read back.
use audit_mpc_lib.Common.{
  ℕ, suc, ◌+◌, ◌*◌, ◌^◌, ◌<◌, ◌≡◌, refl, ap, ◌∙◌, subst, not, Option, none, some, List, [], ◌∷◌,
  ◌++◌, length, length-append, take, drop, arith, ==_iff, Action, ◌⊎◌, inl, inr, Meets, pure,
  Documents, Ensures, pure_rule, bind_rule, call_rule, passes_rule, put32,
}
use audit_mpc_lib.Bignum.{Bignum, Documented}
use audit_mpc_lib.Bignum.Modexp.{Modexp}
use audit_mpc_lib.Pedersen.{statistical_security}
use audit_mpc_lib.Pedersen.Codec.{refused}
use audit_mpc_lib.Pedersen.Codec.Fields.{At, skip, read32-At, read_bytes-At, length-put32}
use audit_mpc_lib.Pedersen.Proof.{
  ParamProof, write_padded, serialize_pairs, deserialize_pairs, serialize_param_zkp,
  deserialize_param_zkp,
}
use audit_mpc_lib.Pedersen.Proof.Protocol.Seed.{Padding, Fitting}

module _ (padded : ℕ → ℕ → List ℕ) where
  -- The bytes of the pairs, and of a proof.
  abbrev pub pair_bytes : ℕ → ParamProof → List ℕ
  pair_bytes size [] = []
  pair_bytes size ((a, z) ∷ proof) = padded a size ++ (padded z size ++ pair_bytes size proof)

  abbrev pub proof_bytes : ℕ → ParamProof → List ℕ
  proof_bytes size proof = put32 size ++ (put32 statistical_security ++ pair_bytes size proof)

one_more :
    (size k a z rest : ℕ)
    → a ≡ size
    → z ≡ size
    → rest ≡ k * (size * 2)
    → a + (z + rest) ≡ suc k * (size * 2)
one_more size k a z rest ha hz h = grind arith

module _ {W : Type 0} (R : Type 0) (bn : Bignum W) (law : Documented R bn) (padded : ℕ → ℕ → List ℕ)
    (pad : Padding R bn padded) where
  length-pair_bytes :
      (size : ℕ) (proof : ParamProof)
      → length (pair_bytes padded size proof) ≡ length proof * (size * 2)
  length-pair_bytes size [] = omega arith
  length-pair_bytes size ((a, z) ∷ proof) =
      length-append (padded a size) (padded z size ++ pair_bytes padded size proof)
      ∙ ap (λ k. length (padded a size) + k)
          (length-append (padded z size) (pair_bytes padded size proof))
      ∙ one_more size (length proof) _ _ _ (pad.padded_len a size) (pad.padded_len z size)
          (length-pair_bytes size proof)

  pub length-proof_bytes :
      (size : ℕ) (proof : ParamProof)
      → length (proof_bytes padded size proof) ≡ 4 * 2 + length proof * (size * 2)
  length-proof_bytes size proof = omega (
    arith,
    length-append (put32 size) (put32 statistical_security ++ pair_bytes padded size proof),
    length-append (put32 statistical_security) (pair_bytes padded size proof),
    length-put32 size,
    length-put32 statistical_security,
    length-pair_bytes size proof,
  )

  -- What is written, unless memory runs out: then nobody looks at the failure.
  abbrev pub Wrote : List ℕ → List ℕ → Type 0
  Wrote bytes s = (s ≡ bytes) ⊎ (¬ R)

  write_padded_lem :
      {E : Type 0} (buffer : List ℕ) (p n len : ℕ)
      → n < 256 ^ len
      → Ensures {W = W} {E = E} R (Wrote (padded n len)) (write_padded bn buffer p n len)
  unfolding write_padded
  write_padded_lem {E} buffer p n len small = record {
    run = λ w.
        written (bn.bn2binpad n len w).0 (bn.bn2binpad n len w).1 (pad.padded_lem n len w small);
  }
    where
      written :
          (r : Option (List ℕ)) (w : W)
          → Documents (¬ R) (λ s. s ≡ padded n len) r
          → Meets {E = E} R
              (Wrote (padded n len))
              ((elim r as (λ _. Action W E (List ℕ)) [
                | none ↦ pure (take len (drop p buffer))
                | some s ↦ pure s
              ])
                w).0
      written none w out = inr out
      written (some s) w e = inl e

  appended : {xs ys s t : List ℕ} → Wrote xs s → Wrote ys t → Wrote (xs ++ ys) (s ++ t)
  appended (inl e) (inl f) = inl (rw (e, f) refl)
  appended (inr out) f = inr out
  appended (inl e) (inr out) = inr out

  serialize_pairs_lem :
      {E : Type 0} (buffer : List ℕ) (p size : ℕ) (proof : ParamProof)
      → Fitting size proof
      → Ensures {W = W} {E = E} R
          (Wrote (pair_bytes padded size proof))
          (serialize_pairs bn buffer p size proof)
  unfolding serialize_pairs
  serialize_pairs_lem buffer p size [] fits = pure_rule R [] (inl refl)
  serialize_pairs_lem buffer p size ((a, z) ∷ proof) (now, later) =
      bind_rule R (write_padded_lem buffer p a size now.0) λ a_bytes ea.
        bind_rule R (write_padded_lem buffer (p + size) z size now.1) λ z_bytes ez.
          bind_rule R (serialize_pairs_lem buffer (p + size + size) size proof later)
            λ rest er. pure_rule R _ (appended ea (appended ez er))

  deserialize_pairs_lem :
      (buffer : List ℕ) (p size : ℕ) (proof : ParamProof)
      → Fitting size proof
      → At buffer p (pair_bytes padded size proof)
      → Ensures R (λ read. read ≡ proof) (deserialize_pairs bn (length proof) buffer p size)
  unfolding deserialize_pairs
  deserialize_pairs_lem buffer p size [] fits here = pure_rule R [] refl
  deserialize_pairs_lem buffer p size ((a, z) ∷ proof) (now, later) here =
      let z_at =
        skip buffer p size (padded a size) (padded z size ++ pair_bytes padded size proof) here
          (pad.padded_len a size) in
      let rest_at =
        skip buffer (p + size) size (padded z size) (pair_bytes padded size proof) z_at
          (pad.padded_len z size) in
      bind_rule R (read_bytes-At R buffer p size (padded a size) _ here (pad.padded_len a size))
        λ a_bytes ea. rw ea (
          call_rule R refused (bn.bin2bn (padded a size)) (law.bin2bn_lem (padded a size)) λ a' na.
            bind_rule R
              (read_bytes-At R buffer (p + size) size (padded z size) _ z_at
                (pad.padded_len z size))
              λ z_bytes ez. rw ez (
                call_rule R refused (bn.bin2bn (padded z size)) (law.bin2bn_lem (padded z size))
                  λ z' nz.
                    bind_rule R
                      (deserialize_pairs_lem buffer (p + size + size) size proof later rest_at)
                      λ rest er.
                        rw
                          (
                            na,
                            nz,
                            er,
                            pad.padded_number a size now.0,
                            pad.padded_number z size now.1,
                          )
                          (pure_rule R _ refl)))

  module _ (mx : Modexp W) where
    pub serialize_param_zkp_lem :
        {E : Type 0} (proof : ParamProof) (n : ℕ) (buffer : List ℕ)
        → Fitting (mx.num_bytes n) proof
        → Ensures {W = W} {E = E} R
            (Wrote (proof_bytes padded (mx.num_bytes n) proof))
            (serialize_param_zkp bn mx proof n buffer)
    unfolding serialize_param_zkp
    serialize_param_zkp_lem proof n buffer fits =
        bind_rule R (serialize_pairs_lem buffer 8 (mx.num_bytes n) proof fits)
          λ pairs e. pure_rule R _ (appended (inl refl) (appended (inl refl) e))

    pub deserialize_param_zkp_lem :
        (proof : ParamProof) (n : ℕ)
        → length proof ≡ statistical_security
        → mx.num_bytes n < 2 ^ 32
        → Fitting (mx.num_bytes n) proof
        → Ensures R
            (λ read. read ≡ proof)
            (deserialize_param_zkp bn mx n (proof_bytes padded (mx.num_bytes n) proof))
    unfolding deserialize_param_zkp
    deserialize_param_zkp_lem proof n len small fits =
        let size = mx.num_bytes n in
        let buffer = proof_bytes padded size proof in
        let pairs = pair_bytes padded size proof in
        let start : At buffer 0 (put32 size ++ (put32 statistical_security ++ pairs)) = record {
          from = refl;
          ends = omega arith;
        } in
        let count_at =
          skip buffer 0 4 (put32 size) (put32 statistical_security ++ pairs) start
            (length-put32 size) in
        let pairs_at =
          skip buffer 4 4 (put32 statistical_security) pairs count_at
            (length-put32 statistical_security) in
        bind_rule R (read32-At R buffer 0 size (put32 statistical_security ++ pairs) start small)
          λ k ek. rw ek (
            passes_rule R refused (ap not ((==_iff size size).1 refl)) (
              bind_rule R (read32-At R buffer 4 statistical_security pairs count_at (omega arith))
                λ c ec. rw ec (
                  subst
                    (λ m. Ensures R (λ read. read ≡ proof) (deserialize_pairs bn m buffer 8 size))
                    len (deserialize_pairs_lem buffer 8 size proof fits pairs_at))))
