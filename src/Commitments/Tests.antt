-- ===== src/Commitments/Tests.antt =====
-- Runs with a stand-in for SHA256 whose context is the text taken in, and the theorems at concrete
-- inputs.
use mathlib.Core.List.{flatten}
use audit_mpc_lib.Common.{
  ℕ, ◌≡◌, refl, ◌∙◌, ◌++◌, some, List, [], ◌∷◌, take, replicate, arith, ok, Call, append_assoc,
  length-append, length-take, length-replicate,
}
use audit_mpc_lib.Common.Sha.{Sha256, sha256}
use audit_mpc_lib.Commitments.{Commitment}
use audit_mpc_lib.Commitments.Context.{commit_run, verify_run, commit_run-verify_run}

-- pads the text with zeros to 32 bytes, or cuts it
abbrev pub pad_sha : Sha256
pad_sha = record {
  Ctx = List ℕ;
  init = [];
  update = λ c m. c ++ m;
  final = λ c. take 32 (c ++ replicate 32 0);
  update-update = append_assoc;
  final_len = λ c.
      length-take 32 (c ++ replicate 32 0)
      ∙ omega (arith, length-append c (replicate 32 0), length-replicate {A = ℕ} 32 0);
}

abbrev always : Call (Unit {0}) (Unit {0})
always w = (some tt, w)

abbrev sevens : ℕ → Call (Unit {0}) (List ℕ)
sevens n w = (some (replicate n 7), w)

abbrev sent : Commitment
sent = record { salt = 1 ∷ []; commitment = sha256 pad_sha (1 ∷ 2 ∷ []) }

commit_run-verify_run_example :
    (sent : Commitment) × (commit_run pad_sha always sevens ((1 ∷ []) ∷ (2 ∷ 3 ∷ []) ∷ []) tt
      ≡ ok sent)
    × (verify_run pad_sha always sent ((1 ∷ 2 ∷ []) ∷ (3 ∷ []) ∷ []) tt ≡ ok tt)
unfolding flatten
commit_run-verify_run_example =
    commit_run-verify_run pad_sha always sevens ((1 ∷ []) ∷ (2 ∷ 3 ∷ []) ∷ [])
      ((1 ∷ 2 ∷ []) ∷ (3 ∷ []) ∷ []) tt tt (replicate 32 7) ((λ e. cc), ((λ e. cc), tt))
      ((λ e. cc), ((λ e. cc), tt)) refl refl refl refl
