-- ===== src/Pedersen/Proof/Protocol/Answers.antt =====
-- The responses of the prover: they meet their equations, and fit where they are written.
use native.Mathlib.Nat.{mod-mod}
use audit_mpc_lib.Common.{
  ℕ, suc, ◌+◌, ◌*◌, ◌%◌, ◌^◌, ◌≤◌, ◌<◌, ◌≡◌, refl, sym, ap, ◌∙◌, Bool, true, false, List, [], ◌∷◌,
  length, All, arith, ◌==◌, ==_iff, if◌then◌else◌, pow-add, pow-period, mul-cong,
}
use audit_mpc_lib.Common.Sha.{Sha256}
use audit_mpc_lib.Pedersen.{PedersenPrivate}
use audit_mpc_lib.Pedersen.Commit.Agreement.{IsKeyPair}
use audit_mpc_lib.Pedersen.Proof.{ParamProof}
use audit_mpc_lib.Pedersen.Proof.Protocol.Seed.{Fitting, hashed}
use audit_mpc_lib.Pedersen.Proof.Protocol.Equations.{equation, equations}

-- A pair as it is drawn: A is the power of t, and both are reduced.
abbrev pub Drawn : PedersenPrivate → ℕ × ℕ → Type 0
Drawn key (a, z) = (a ≡ key.public.t ^ z % key.public.n) × (z < key.phi_n)

-- The response for one byte.
abbrev pub response : PedersenPrivate → ℕ → ℕ → ℕ
response key e z = if e % 2 == 1 then (z + key.lamda) % key.phi_n else z

pub equation_lem :
    (key : PedersenPrivate) (e a z : ℕ)
    → IsKeyPair key
    → a ≡ key.public.t ^ z % key.public.n
    → equation key.public e a (response key e z) ≡ true
equation_lem key e a z pair ha = (==_iff _ _).1 (chosen (e % 2 == 1))
  where
    chosen :
        (odd : Bool)
        → key.public.t ^ (if odd then (z + key.lamda) % key.phi_n else z) % key.public.n
          ≡ (if odd then a * key.public.s % key.public.n else a)
    chosen true =
        pow-period key.public.n key.public.t key.phi_n (z + key.lamda) pair.period
        ∙ ap (λ k. k % key.public.n) (pow-add key.public.t z key.lamda)
        ∙ sym (
            mul-cong key.public.n a (key.public.t ^ z) key.public.s (key.public.t ^ key.lamda)
              (ap (λ k. k % key.public.n) ha ∙ mod-mod _ _)
              (ap (λ k. k % key.public.n) pair.s_lem ∙ mod-mod _ _))
    chosen false = sym ha

-- The pairs of a proof, for the bytes of the generator.
abbrev pub answered : PedersenPrivate → List ℕ → ParamProof → ParamProof
answered key es [] = []
answered key [] (p ∷ pairs) = p ∷ pairs
answered key (e ∷ es) ((a, z) ∷ pairs) = (a, response key e z) ∷ answered key es pairs

-- The seed does not depend on the responses.
pub hashed-answered :
    (sha : Sha256) (padded : ℕ → ℕ → List ℕ) (size : ℕ) (key : PedersenPrivate) (es : List ℕ)
    (pairs : ParamProof) (ctx : sha.Ctx)
    → hashed sha padded size (answered key es pairs) ctx ≡ hashed sha padded size pairs ctx
hashed-answered sha padded size key es [] ctx = refl
hashed-answered sha padded size key [] (p ∷ pairs) ctx = refl
hashed-answered sha padded size key (e ∷ es) ((a, z) ∷ pairs) ctx =
    hashed-answered sha padded size key es pairs (sha.update ctx (padded a size))

pub length-answered :
    (key : PedersenPrivate) (es : List ℕ) (pairs : ParamProof)
    → length (answered key es pairs) ≡ length pairs
length-answered key es [] = refl
length-answered key [] (p ∷ pairs) = refl
length-answered key (e ∷ es) (p ∷ pairs) = ap suc (length-answered key es pairs)

pub answered-equations :
    (key : PedersenPrivate) (es : List ℕ) (pairs : ParamProof)
    → IsKeyPair key
    → length es ≡ length pairs
    → All (Drawn key) pairs
    → equations key.public es (answered key es pairs) ≡ true
answered-equations key es [] pair len drawn = refl
answered-equations key [] (p ∷ pairs) pair len drawn = absurd (omega arith)
answered-equations key (e ∷ es) ((a, z) ∷ pairs) pair len (now, later) =
    rw (equation_lem key e a z pair now.0)
      (answered-equations key es pairs pair (omega arith) later)

-- The numbers of the proof of a key, whose exponents are reduced, fit.
pub record Reduced (key : PedersenPrivate) : Type 0 where
  pub lamda_lt : key.lamda < key.phi_n
  pub phi_le : key.phi_n ≤ key.public.n

pub response_lt : (key : PedersenPrivate) (e z : ℕ) → z < key.phi_n → response key e z < key.phi_n
response_lt key e z h = bounded (e % 2 == 1)
  where
    bounded : (odd : Bool) → (if odd then (z + key.lamda) % key.phi_n else z) < key.phi_n
    bounded true = omega arith
    bounded false = h

pub below_modulus : (a k n bound : ℕ) → 0 < n → a ≡ k % n → n < bound → a < bound
below_modulus a k n bound pos e h = omega arith

pub pair_fits :
    (key : PedersenPrivate) (size a z z' : ℕ)
    → IsKeyPair key
    → Reduced key
    → key.public.n < 256 ^ size
    → Drawn key (a, z)
    → z' < key.phi_n
    → (a < 256 ^ size) × (z' < 256 ^ size)
pair_fits key size a z z' pair small fits now h = (
  below_modulus a (key.public.t ^ z) key.public.n (256 ^ size) (omega (arith, pair.n_large)) now.0
      fits,
  omega (arith, small.phi_le),
)

pub Drawn-Fitting :
    (key : PedersenPrivate) (size : ℕ) (pairs : ParamProof)
    → IsKeyPair key
    → Reduced key
    → key.public.n < 256 ^ size
    → All (Drawn key) pairs
    → Fitting size pairs
Drawn-Fitting key size [] pair small fits drawn = tt
Drawn-Fitting key size ((a, z) ∷ pairs) pair small fits (now, later) = (
  pair_fits key size a z z pair small fits now now.1,
  Drawn-Fitting key size pairs pair small fits later,
)

pub answered-Fitting :
    (key : PedersenPrivate) (size : ℕ) (es : List ℕ) (pairs : ParamProof)
    → IsKeyPair key
    → Reduced key
    → key.public.n < 256 ^ size
    → All (Drawn key) pairs
    → Fitting size (answered key es pairs)
answered-Fitting key size es [] pair small fits drawn = tt
answered-Fitting key size [] (p ∷ pairs) pair small fits drawn =
    Drawn-Fitting key size (p ∷ pairs) pair small fits drawn
answered-Fitting key size (e ∷ es) ((a, z) ∷ pairs) pair small fits (now, later) = (
  pair_fits key size a z (response key e z) pair small fits now (response_lt key e z now.1),
  answered-Fitting key size es pairs pair small fits later,
)
