-- ===== src/Vss/Split.antt =====
-- The splitting functions of verifiable_secret_sharing.c. The access matrix is the list of its rows.
-- The draw of a coefficient repeats while it is zero: it runs on fuel, and the status `spinning` says
-- that the fuel ran out.
use audit_mpc_lib.Common.{
  ℕ, zero, suc, ◌+◌, ◌-◌, Bool, true, false, not, ◌&&◌, ◌||◌, Option, none, some, List, [], ◌∷◌,
  if◌then◌else◌, ◌==◌, leb, ltb, Action, Call, pure, fail, fail_if, try, map_err, ◌>>=◌, ◌>>◌, ok,
}
use audit_mpc_lib.Bignum.{Bignum}
use audit_mpc_lib.Algebra.{Algebra}
use audit_mpc_lib.Curve.Status.{EcStatus}
use audit_mpc_lib.Curve.Status
use audit_mpc_lib.Vss.{
  VssStatus, unknown_error, invalid_parameter, out_of_memory, invalid_secret, invalid_share_id,
  spinning, VerifiableSecretSharing,
}

-- How `create_shares` takes a failed multiplication of the generator.
abbrev pub from_mul_status : EcStatus → VssStatus
from_mul_status Status.out_of_memory = out_of_memory
from_mul_status Status.unknown_error = unknown_error
from_mul_status Status.invalid_parameter = unknown_error
from_mul_status Status.invalid_scalar = unknown_error
from_mul_status Status.invalid_point = unknown_error
from_mul_status Status.insufficient_buffer = unknown_error
from_mul_status Status.invalid_signature = unknown_error

-- Every failure of `create_shares` is an out-of-memory error of `split_impl`.
abbrev pub from_create_status : VssStatus → VssStatus
from_create_status spinning = spinning
from_create_status _ = out_of_memory

-- No id is zero, and no id comes twice.
unfoldable pub member : ℕ → List ℕ → Bool
member id [] = false
member id (x ∷ xs) = (id == x) || member id xs

unfoldable pub ids_valid : List ℕ → Bool
ids_valid [] = true
ids_valid (id ∷ ids) = not (id == 0) && (not (member id ids) && ids_valid ids)

-- The ids of `split`: `i + 1` for each index.
unfoldable pub count_from : ℕ → ℕ → List ℕ
count_from i zero = []
count_from i (suc n) = i ∷ count_from (i + 1) n

abbrev pub firsts : List (List ℕ × List ℕ) → List (List ℕ)
firsts [] = []
firsts (p ∷ ps) = p.0 ∷ firsts ps

abbrev pub seconds : List (List ℕ × List ℕ) → List (List ℕ)
seconds [] = []
seconds (p ∷ ps) = p.1 ∷ seconds ps

-- The first row of `split`.
abbrev pub ones : ℕ → List ℕ
ones zero = []
ones (suc t) = 1 ∷ ones t

module _ {W : Type 0} (bn : Bignum W) (calloc : Call W (Unit {0})) where
  open bn use {
    ctx_new, get, bin2bn, bn2binpad, mod_mul, rand_range, copy, set_word, mul_word, modulo,
    mod_add_quick,
  }

  unfoldable pub draw : ℕ → ℕ → Action W VssStatus ℕ
  draw zero prime = fail spinning
  draw (suc fuel) prime = do
    r ← try out_of_memory (rand_range prime)
    if r == 0 then draw fuel prime else pure r

  unfoldable pub draw_all : ℕ → ℕ → ℕ → Action W VssStatus (List ℕ)
  draw_all fuel prime zero = pure []
  draw_all fuel prime (suc n) = do
    try out_of_memory get
    r ← draw fuel prime
    rest ← draw_all fuel prime n
    pure (r ∷ rest)

  -- A number in 32 bytes, and that multiple of the generator.
  unfoldable pub publish : Algebra W → ℕ → Action W VssStatus (List ℕ × List ℕ)
  publish alg n = do
    s ← try out_of_memory (bn2binpad n 32)
    p ← map_err from_mul_status (alg.generator_mul s)
    pure (s, p)

  unfoldable pub publish_all : Algebra W → List ℕ → Action W VssStatus (List (List ℕ))
  publish_all alg [] = pure []
  publish_all alg (c ∷ cs) = do
    made ← publish alg c
    rest ← publish_all alg cs
    pure (made.1 ∷ rest)

  -- One row of the matrix times the polynomial.
  unfoldable pub row_share : ℕ → List ℕ → List ℕ → ℕ → Action W VssStatus ℕ
  row_share prime (m ∷ row) (c ∷ polynom) share = do
    tmp ← try out_of_memory (mod_mul m c prime)
    next ← try out_of_memory (mod_add_quick share tmp prime)
    row_share prime row polynom next
  row_share prime _ _ share = pure share

  unfoldable pub share_rows :
      Algebra W → ℕ → List ℕ → List (List ℕ) → Action W VssStatus (List (List ℕ × List ℕ))
  share_rows alg prime polynom [] = pure []
  share_rows alg prime polynom (row ∷ rows) = do
    share ← row_share prime row polynom 0
    made ← publish alg share
    rest ← share_rows alg prime polynom rows
    pure (made ∷ rest)

  -- The threshold `t` is not zero.
  unfoldable pub create_shares :
      ℕ
      → Algebra W
      → ℕ
      → ℕ
      → ℕ
      → List (List ℕ)
      → List ℕ
      → ℕ
      → Action W VssStatus VerifiableSecretSharing
  create_shares fuel alg secret t n mat ids prime = do
    try out_of_memory calloc
    coefficients ← draw_all fuel prime (t - 1)
    try out_of_memory calloc
    try out_of_memory calloc
    try out_of_memory calloc
    coefficient_proofs ← publish_all alg (secret ∷ coefficients)
    try out_of_memory get
    try out_of_memory get
    made ← share_rows alg prime (secret ∷ coefficients) mat
    pure (record {
      ids = ids;
      shares = firsts made;
      proofs = seconds made;
      coefficient_proofs = coefficient_proofs;
      num_shares = n;
      threshold = t;
    })

  -- `BN_mod(a, a, m, ctx)` with its result ignored: a failure leaves the number as it was.
  abbrev pub reduce_entry : ℕ → ℕ → Action W VssStatus ℕ
  reduce_entry prime m w =
      let (r, w') = modulo m prime w in elim r [ none ↦ (ok m, w') | some x ↦ (ok x, w') ]

  unfoldable pub reduce_row : ℕ → List ℕ → Action W VssStatus (List ℕ)
  reduce_row prime [] = pure []
  reduce_row prime (m ∷ row) = do
    x ← reduce_entry prime m
    rest ← reduce_row prime row
    pure (x ∷ rest)

  unfoldable pub reduce_rows : ℕ → List (List ℕ) → Action W VssStatus (List (List ℕ))
  reduce_rows prime [] = pure []
  reduce_rows prime (row ∷ rows) = do
    x ← reduce_row prime row
    rest ← reduce_rows prime rows
    pure (x ∷ rest)

  -- The assertion that the order is prime is left out: it is not in a release build.
  unfoldable pub split_impl :
      ℕ
      → Algebra W
      → List ℕ
      → ℕ
      → ℕ
      → List (List ℕ)
      → List ℕ
      → Action W VssStatus VerifiableSecretSharing
  split_impl fuel alg secret t n access_mat ids = do
    try out_of_memory calloc
    bn_secret ← try out_of_memory (bin2bn secret)
    bn_prime ← try out_of_memory (bin2bn alg.order)
    fail_if (leb bn_prime bn_secret) invalid_secret
    mat ← reduce_rows bn_prime access_mat
    map_err from_create_status (create_shares fuel alg bn_secret t n mat ids bn_prime)

  -- The powers of an id behind `prev`.
  unfoldable pub row_tail : ℕ → ℕ → ℕ → Action W VssStatus (List ℕ)
  row_tail id zero prev = pure []
  row_tail id (suc k) prev = do
    try out_of_memory get
    cur ← try out_of_memory (copy prev)
    next ← try out_of_memory (mul_word cur id)
    rest ← row_tail id k next
    pure (next ∷ rest)

  unfoldable pub access_rows : ℕ → List ℕ → Action W VssStatus (List (List ℕ))
  access_rows t [] = pure []
  access_rows t (id ∷ ids) = do
    rest ← row_tail id (t - 1) 1
    rows ← access_rows t ids
    pure ((1 ∷ rest) ∷ rows)

  unfoldable pub split :
      ℕ
      → Option (Algebra W)
      → Option (List ℕ)
      → ℕ
      → ℕ
      → Bool
      → Action W VssStatus VerifiableSecretSharing
  split fuel (some alg) (some (b ∷ secret)) t n true =
      if ltb t 1 || ltb n t then fail invalid_parameter else (do
        try out_of_memory ctx_new
        try out_of_memory calloc
        try out_of_memory get
        try out_of_memory calloc
        rows ← access_rows t (count_from 2 (n - 1))
        split_impl fuel alg (b ∷ secret) t n (ones t ∷ rows) (count_from 1 n))
  split fuel _ _ t n _ = fail invalid_parameter

  -- There are `n` ids.
  unfoldable pub split_with_custom_ids :
      ℕ
      → Option (Algebra W)
      → Option (List ℕ)
      → ℕ
      → ℕ
      → Option (List ℕ)
      → Bool
      → Action W VssStatus VerifiableSecretSharing
  split_with_custom_ids fuel (some alg) (some (b ∷ secret)) t n (some ids) true =
      if ltb t 1 || ltb n t then fail invalid_parameter else (do
        try out_of_memory ctx_new
        try out_of_memory calloc
        try out_of_memory get
        try out_of_memory calloc
        fail_if (not (ids_valid ids)) invalid_share_id
        rows ← access_rows t ids
        split_impl fuel alg (b ∷ secret) t n rows ids)
  split_with_custom_ids fuel _ _ t n _ _ = fail invalid_parameter
