-- ===== src/Drng/Read.antt =====
-- What `drng_new` and `drng_read_deterministic_rand` promise, over the byte stream of the state.
use audit_mpc_lib.Common.{
  ℕ, zero, suc, ◌+◌, ◌≤◌, ◌<◌, ◌≡◌, refl, ap, ◌⊎◌, inl, inr, Bool, Option-cases, true,
  take-append-drop, false, Option, none, some, List, [], ◌∷◌, ◌++◌, length, arith, Bool-cases,
  Result, ok, err, Call,
}
use audit_mpc_lib.Drng.{
  Drng, DrngStatus, invalid_parameter, internal_error, out_of_memory, drng_new,
  drng_read_deterministic_rand, overlaps, sizeof_drng,
}
use audit_mpc_lib.Drng.Stream.{
  IsValid, next_bytes, next_bytes-add, next_bytes-IsValid, length-next_bytes, read_loop-next_bytes,
  refill-IsValid,
}

abbrev pub get_or_nil : Option (List ℕ) → List ℕ
get_or_nil none = []
get_or_nil (some l) = l

module _ (sha512 : List ℕ → List ℕ) where
  -- A call that is not refused writes outside the generator: the output buffer ends at or before its
  -- first byte, or begins behind its last.
  pub read_disjoint :
      (address rand len : ℕ) (rng : Drng) {r : List ℕ × Drng}
      → drng_read_deterministic_rand sha512 address (some rng) (some rand) len ≡ some (ok r)
      → (rand + len ≤ address) ⊎ (address + sizeof_drng ≤ rand)
  unfolding drng_read_deterministic_rand
  read_disjoint address rand zero rng h = cc
  read_disjoint address rand (suc len) rng h = ground arith

  accepted :
      (address rand len : ℕ) (rng : Drng) {r : List ℕ × Drng}
      → drng_read_deterministic_rand sha512 address (some rng) (some rand) len ≡ some (ok r)
      → (0 < len) × (overlaps address rand len ≡ false)
  unfolding drng_read_deterministic_rand
  accepted address rand zero rng h = cc
  accepted address rand (suc len) rng h = elim (Bool-cases (overlaps address rand (suc len))) [
    | inl touches ↦ ground arith
    | inr apart ↦ (omega arith, apart)
  ]

module _ (sha512 : List ℕ → List ℕ) (sha512_len : (m : List ℕ) → length (sha512 m) ≡ 64) where
  -- On a well-formed generator and a buffer that does not touch it, a read of one byte or more
  -- ends, writes exactly the next bytes of the stream and leaves the generator behind them.
  pub read-next_bytes :
      (address rand len : ℕ) (rng : Drng)
      → IsValid rng
      → 0 < len
      → overlaps address rand len ≡ false
      → drng_read_deterministic_rand sha512 address (some rng) (some rand) len
        ≡ some (ok (next_bytes sha512 len rng))
  unfolding drng_read_deterministic_rand
  read-next_bytes address rand zero rng v h apart = absurd (omega arith)
  read-next_bytes address rand (suc len) rng v h apart = rw (
    apart,
    read_loop-next_bytes sha512 sha512_len (suc len + 2) (suc len) rng [] v
        (omega (arith, v.pos_le)),
  )

  -- A successful read fills the buffer and keeps the generator well formed.
  pub read-IsValid :
      (address rand len : ℕ) (rng rng' : Drng) (bytes : List ℕ)
      → IsValid rng
      → drng_read_deterministic_rand sha512 address (some rng) (some rand) len
        ≡ some (ok (bytes, rng'))
      → IsValid rng' × (length bytes ≡ len)
  read-IsValid address rand len rng rng' bytes v h =
      let (pos, apart) = accepted sha512 address rand len rng h in
      let e : next_bytes sha512 len rng ≡ (bytes, rng') =
        cc (read-next_bytes address rand len rng v pos apart) in
      (
        rw (ap (λ r. r.1) e) at (next_bytes-IsValid sha512 sha512_len len rng v),
        rw (ap (λ r. r.0) e) at (length-next_bytes sha512 len rng),
      )

  -- Two reads one after the other return what a single read of both lengths returns, and leave the
  -- generator in the same state.
  pub read_split :
      (address rand m n : ℕ) (rng : Drng)
      → IsValid rng
      → 0 < m
      → 0 < n
      → overlaps address rand (m + n) ≡ false
      → (front back : List ℕ) × (mid last : Drng) × (drng_read_deterministic_rand sha512 address
            (some rng)
            (some rand)
            m
          ≡ some (ok (front, mid)))
        × (drng_read_deterministic_rand sha512 address (some mid) (some (rand + m)) n
            ≡ some (ok (back, last)))
        × (drng_read_deterministic_rand sha512 address (some rng) (some rand) (m + n)
            ≡ some (ok (front ++ back, last)))
  read_split address rand m n rng v hm hn apart =
      let (front, mid) = next_bytes sha512 m rng in
      let (back, last) = next_bytes sha512 n mid in
      let v' = next_bytes-IsValid sha512 sha512_len m rng v in
      (
        front,
        back,
        mid,
        last,
        read-next_bytes address rand m rng v hm (ground arith),
        read-next_bytes address (rand + m) n mid v' hn (ground arith),
        rw (← next_bytes-add sha512 m n rng)
            (read-next_bytes address rand (m + n) rng v (omega arith) apart),
      )

  -- What each result of `drng_new` says.
  abbrev pub NewPost :
      {W : Type 0}
      → Call W (Unit {0})
      → Option (List ℕ)
      → Bool
      → W
      → Result DrngStatus Drng
      → Type 0
  NewPost malloc seed has_out w (ok rng) =
      IsValid rng × (rng.pos ≡ 0) × (rng.block ++ rng.seed ≡ sha512 (get_or_nil seed))
  NewPost malloc seed has_out w (err internal_error) = ⊥
  NewPost malloc seed has_out w (err out_of_memory) = (malloc w).0 ≡ none
  NewPost malloc seed has_out w (err invalid_parameter) = (get_or_nil seed ≡ []) ⊎ (has_out ≡ false)

  -- `drng_new` refuses a NULL or empty seed and a NULL result pointer; otherwise it fails only where
  -- the allocation does, and what it returns is well formed and starts at the first byte of SHA512.
  pub drng_new_lem :
      {W : Type 0} (malloc : Call W (Unit {0})) (seed : Option (List ℕ)) (has_out : Bool) (w : W)
      → NewPost malloc seed has_out w (drng_new sha512 malloc seed has_out w).0
  unfolding drng_new
  drng_new_lem malloc none has_out w = inl refl
  drng_new_lem malloc (some []) has_out w = inl refl
  drng_new_lem malloc (some (b ∷ seed)) false w = inr refl
  drng_new_lem malloc (some (b ∷ seed)) true w = elim (Option-cases (malloc w).0) [
    | inl fails ↦ rw (fails, NewPost) fails
    | inr (u, works) ↦
        rw (works, NewPost)
          (
            refill-IsValid sha512 sha512_len (b ∷ seed),
            refl,
            take-append-drop 32 (sha512 (b ∷ seed)),
          )
  ]
