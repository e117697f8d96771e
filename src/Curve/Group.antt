-- ===== src/Curve/Group.antt =====
-- OpenSSL's EC_GROUP and EC_POINT, a library that the repository only calls: its functions on one
-- curve as parameters, and the documented behaviour that the code relies on.
pub mod Model
use audit_mpc_lib.Common.{
  ℕ, suc, ◌+◌, ◌*◌, ◌%◌, ◌<◌, ◌≡◌, ◌≢◌, ◌⊎◌, Bool, List, [], ◌∷◌, Action, Call, Meets, Documents,
  length, get_or, ◌==◌,
}

-- What `from_openssl_error` tells apart in an error of the queue.
pub data OpensslReason : Type 0 where
  invalid_encoding invalid_compressed_point malloc_failure other : OpensslReason

pub record OpensslError : Type 0 where
  pub is_ec_lib : Bool
  pub reason : OpensslReason

pub record EcGroup (W : Type 0) : Type 1 where
  pub Point : Type 0
  -- EC_POINT_new
  pub point_new : Call W Point
  -- EC_POINT_oct2point, with what ERR_get_error gives where it fails
  pub oct2point : List ℕ → Action W OpensslError Point
  -- EC_POINT_point2oct, compressed: the bytes that it writes
  pub point2oct : Point → Call W (List ℕ)
  -- EC_POINT_mul with the generator, and with a point
  pub mul_generator : ℕ → Call W Point
  pub mul_point : Point → ℕ → Call W Point
  pub add : Point → Point → Call W Point
  -- EC_POINTs_mul with zero for the generator
  pub points_mul : List Point → List ℕ → Call W Point
  -- EC_POINT_cmp: whether the points are equal, unless it is negative
  pub cmp : Point → Point → Call W Bool

-- The exponent of a linear combination.
unfoldable pub dot : List ℕ → List ℕ → ℕ
dot (k ∷ ks) (c ∷ cs) = k * c + dot ks cs
dot _ _ = 0

abbrev pub each : {A B : Type 0} → (A → B) → List A → List B
each f [] = []
each f (x ∷ xs) = f x ∷ each f xs

-- The points are the multiples of the generator, `point k` the k-th; there are `q` of them.
-- `octets` is the compressed form: one zero byte for the point at infinity, else 33 bytes of which
-- the first is not zero. `R` says that memory does not run out.
pub record GroupLaws {W : Type 0} (R : Type 0) (ec : EcGroup W) (q : ℕ) (point : ℕ → ec.Point)
    (octets : ec.Point → List ℕ) : Type 0 where
  pub order_pos : 0 < q
  pub period : (k : ℕ) → point k ≡ point (k % q)
  pub octets_form :
      (k : ℕ)
      → (octets (point k) ≡ 0 ∷ [])
        ⊎ ((length (octets (point k)) ≡ 33) × (get_or (octets (point k)) 0 0 ≢ 0))
  -- the compressed form tells the points apart
  pub octets_lem : (k n : ℕ) → octets (point k) ≡ octets (point n) → k % q ≡ n % q
  pub point_new_lem : (w : W) → Documents (¬ R) (λ p. p ≡ point 0) (ec.point_new w).0
  pub oct2point_lem :
      (k : ℕ) (w : W) → Meets R (λ p. p ≡ point k) (ec.oct2point (octets (point k)) w).0
  pub point2oct_lem :
      (k : ℕ) (w : W) → Documents (¬ R) (λ s. s ≡ octets (point k)) (ec.point2oct (point k) w).0
  pub mul_generator_lem :
      (n : ℕ) (w : W) → Documents (¬ R) (λ p. p ≡ point n) (ec.mul_generator n w).0
  pub mul_point_lem :
      (k n : ℕ) (w : W) → Documents (¬ R) (λ p. p ≡ point (k * n)) (ec.mul_point (point k) n w).0
  pub add_lem :
      (k n : ℕ) (w : W) → Documents (¬ R) (λ p. p ≡ point (k + n)) (ec.add (point k) (point n) w).0
  pub points_mul_lem :
      (ks cs : List ℕ) (w : W)
      → length ks ≡ length cs
      → Documents (¬ R) (λ p. p ≡ point (dot ks cs)) (ec.points_mul (each point ks) cs w).0
  pub cmp_lem :
      (k n : ℕ) (w : W)
      → Documents (¬ R) (λ r. r ≡ (k % q == n % q)) (ec.cmp (point k) (point n) w).0
