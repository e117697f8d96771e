-- ===== src/Common/Results.antt =====
-- A call of the C code: it reads and changes the world (memory, entropy, library state), and
-- returns a result or an error status. A library call returns an option, `none` for 0 or NULL.
use mathlib.Core.Path.{◌≡◌}
use mathlib.Core.Bool.{Bool, true, false}
use mathlib.Core.Option.{Option, none, some}

pub data Result (E A : Type 0) : Type 0 where
  ok : A → Result E A
  err : E → Result E A

abbrev pub Action : Type 0 → Type 0 → Type 0 → Type 0
Action W E A = W → Result E A × W

-- What a library function does.
abbrev pub Call : Type 0 → Type 0 → Type 0
Call W A = W → Option A × W

module _ {W E A : Type 0} where
  abbrev pub pure : A → Action W E A
  pure a w = (ok a, w)

  abbrev pub fail : E → Action W E A
  fail e w = (err e, w)

  -- `if (!call) { ret = e; goto cleanup; }`
  abbrev pub try : E → Call W A → Action W E A
  try e call w = let (r, w') = call w in elim r [ none ↦ (err e, w') | some a ↦ (ok a, w') ]

-- How a call goes on from the result of the one before it.
abbrev pub resume : {W E A B : Type 0} → Result E A → W → (A → Action W E B) → Result E B × W
resume (ok a) w f = f a w
resume (err e) w f = (err e, w)

infixl 5 ◌>>=◌ ◌>>◌
abbrev pub ◌>>=◌ : {W E A B : Type 0} → Action W E A → (A → Action W E B) → Action W E B
◌>>=◌ m f w = resume (m w).0 (m w).1 f

abbrev pub ◌>>◌ : {W E A B : Type 0} → Action W E A → Action W E B → Action W E B
m >> k = m >>= λ _. k

-- `if (c) { ret = e; goto cleanup; }`
abbrev pub fail_if : {W E : Type 0} → Bool → E → Action W E (Unit {0})
fail_if true e w = (err e, w)
fail_if false e w = (ok tt, w)

-- A failed call's status, translated.
abbrev pub map_err : {W E F A : Type 0} → (E → F) → Action W E A → Action W F A
map_err f m w = let (r, w') = m w in elim r [ ok a ↦ (ok a, w') | err e ↦ (err (f e), w') ]

-- A result meets `P`, and an error shows that the environment `R` relied on failed.
abbrev pub Meets : {E A : Type 0} → Type 0 → (A → Type 0) → Result E A → Type 0
Meets R P (ok a) = P a
Meets R P (err e) = ¬ R

pub record Ensures {W E A : Type 0} (R : Type 0) (P : A → Type 0) (m : Action W E A) : Type 0 where
  pub run : (w : W) → Meets R P (m w).0

-- What a library documents about a call: when it may fail, and what it returns.
abbrev pub Documents : {A : Type 0} → Type 0 → (A → Type 0) → Option A → Type 0
Documents F P none = F
Documents F P (some a) = P a

-- Every run ends in a result that meets `P`; a run that ends in an error shows that `R`, what the
-- environment was relied on for, did not hold.
module _ {W E : Type 0} (R : Type 0) where
  pub pure_rule : {A : Type 0} {P : A → Type 0} (a : A) → P a → Ensures {W = W} {E = E} R P (pure a)
  pure_rule a p = record { run = λ w. p }

  pub fail_rule :
      {A : Type 0} {P : A → Type 0} (e : E) → ¬ R → Ensures {W = W} {E = E} {A = A} R P (fail e)
  fail_rule e p = record { run = λ w. p }

  resume_rule :
      {A B : Type 0} {P : A → Type 0} {Q : B → Type 0} (r : Result E A) (w : W)
      (f : A → Action W E B)
      → Meets R P r
      → ((a : A) → P a → Ensures R Q (f a))
      → Meets R Q (resume r w f).0
  resume_rule (ok a) w f h k = (k a h).run w
  resume_rule (err e) w f h k = h

  pub bind_rule :
      {A B : Type 0} {P : A → Type 0} {Q : B → Type 0} {m : Action W E A} {f : A → Action W E B}
      → Ensures R P m
      → ((a : A) → P a → Ensures R Q (f a))
      → Ensures R Q (m >>= f)
  bind_rule {m} {f} hm hf = record { run = λ w. resume_rule (m w).0 (m w).1 f (hm.run w) hf }

  try_result :
      {A : Type 0} (P : A → Type 0) (e : E) (r : Option A) (w : W)
      → Documents (¬ R) P r
      → Meets R P (elim r as (λ _. Result E A × W) [ none ↦ (err e, w) | some a ↦ (ok a, w) ]).0
  try_result P e none w h = h
  try_result P e (some a) w h = h

  pub try_rule :
      {A : Type 0} {P : A → Type 0} (e : E) (call : Call W A)
      → ((w : W) → Documents (¬ R) P (call w).0)
      → Ensures R P (try e call)
  try_rule {P} e call h = record { run = λ w. try_result P e (call w).0 (call w).1 (h w) }

  -- A library call and what comes after it.
  pub call_rule :
      {A B : Type 0} {P : A → Type 0} {Q : B → Type 0} {f : A → Action W E B} (e : E)
      (call : Call W A)
      → ((w : W) → Documents (¬ R) P (call w).0)
      → ((a : A) → P a → Ensures R Q (f a))
      → Ensures R Q (try e call >>= f)
  call_rule e call h k = bind_rule (try_rule e call h) k

  -- An early return whose test does not hold.
  pub passes_rule :
      {A : Type 0} {P : A → Type 0} {k : Action W E A} {b : Bool} (e : E)
      → b ≡ false
      → Ensures R P k
      → Ensures R P (fail_if b e >>= λ _. k)
  passes_rule e h k = rw h k

  pub weaken_rule :
      {A : Type 0} {P Q : A → Type 0} {m : Action W E A}
      → Ensures R P m
      → ((a : A) → P a → Q a)
      → Ensures R Q m
  weaken_rule {m} h k = record { run = λ w. weaken_result (m w).0 (h.run w) k }
    where
      weaken_result :
          {A : Type 0} {P Q : A → Type 0} (r : Result E A)
          → Meets R P r
          → ((a : A) → P a → Q a)
          → Meets R Q r
      weaken_result (ok a) p f = f a p
      weaken_result (err e) p f = p

  map_err_result :
      {F A : Type 0} (P : A → Type 0) (f : E → F) (r : Result E A) (w : W)
      → Meets R P r
      → Meets R P (elim r as (λ _. Result F A × W) [ ok a ↦ (ok a, w) | err e ↦ (err (f e), w) ]).0
  map_err_result P f (ok a) w h = h
  map_err_result P f (err e) w h = h

  pub map_err_rule :
      {F A : Type 0} {P : A → Type 0} {m : Action W E A} (f : E → F)
      → Ensures R P m
      → Ensures R P (map_err f m)
  map_err_rule {P} {m} f h = record { run = λ w. map_err_result P f (m w).0 (m w).1 (h.run w) }
