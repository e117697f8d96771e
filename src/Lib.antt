-- ===== src/Lib.antt =====
-- Models and proofs for the cryptographic library under src/common/crypto: the C code that the signing
-- services of src/common/cosigner stand on. Paths are from the repository's root.
--
-- The parts, from the bottom up, and the files that model them:
--
--   Common            bytes, lists, results of calls, SHA256 as a parameter
--   Bignum            OpenSSL's BIGNUM as a parameter, with the behaviour that the code relies on
--   Drng              src/common/crypto/drng/drng.c: drng_new and drng_read_deterministic_rand
--   Keccak            src/common/crypto/keccak1600/keccak1600.c: keccak1600_init, _update and _final
--   Commitments       src/common/crypto/commitments/commitments.c: the one-call functions and the
--                     functions over a context, without the prefix commitments_
--   Curve             src/common/crypto/GFp_curve_algebra/GFp_curve_algebra.c: Curve/Points for the
--                     point functions, Curve/Scalars for the scalar functions (both without the prefix
--                     GFp_curve_algebra_), Curve/Reduce for in_field and the two reductions,
--                     Curve/Table for the table of operations that the protocols call; Curve/Group is
--                     OpenSSL's EC_POINT as a parameter
--   Algebra           the table's interface, elliptic_curve256_algebra_ctx_t, and its laws
--   Schnorr           src/common/crypto/zero_knowledge_proof/schnorr.c
--   DhLog             src/common/crypto/zero_knowledge_proof/diffie_hellman_log.c, whose functions
--                     diffie_hellman_log_zkp_generate and _verify are dh_log_generate and
--                     dh_log_verify
--   Paillier          src/common/crypto/paillier/paillier.c, without the prefix paillier_: is_coprime_fast
--                     itself, Paillier/Keys for the key generation, Paillier/Cipher for L (quotient_l)
--                     and the functions on numbers, Paillier/Messages for encryption and decryption,
--                     Paillier/Homomorphic for the operations on ciphertexts, Paillier/Codec for the
--                     byte formats of the keys; Paillier/Units, Binomial,
--                     Fermat and Encryption have the arithmetic; of
--                     src/common/crypto/paillier/paillier_zkp.c the proof that n is coprime with
--                     lamda is Paillier/CoprimeProof
--   Pedersen          src/common/crypto/commitments/ring_pedersen.c, without the prefix ring_pedersen_:
--                     Pedersen/Keys for key generation, Pedersen/Codec for the byte formats of the
--                     keys, Pedersen/Commit and Pedersen/Batch for commitments, Pedersen/Proof for the
--                     proof of the parameters (param_zkp_generate and param_zkp_verify)
--   Vss               src/common/crypto/shamir_secret_sharing/verifiable_secret_sharing.c, without the
--                     prefix verifiable_secret_sharing_; Vss/Split has the two splitting functions,
--                     Vss/Reconstruct the Lagrange interpolation
--
-- The protocols call the curve through the table: Schnorr, DhLog and Vss take an `Algebra` with its laws, and
-- Curve/Table proves the laws for the GFp curves.
--
-- A call of the C code is an `Action`: it takes the world (memory, entropy, library state) to a result or
-- an error status, and to the next world. A call of OpenSSL, of malloc or of RAND_bytes is a parameter,
-- which returns nothing where the C function returns 0 or NULL. The statements `Ensures R P` say that
-- every run ends in a result with `P`, or that `R` did not hold: `R` stands for what the environment has
-- to give, memory and randomness. NULL is `none`, and `false` for a pointer to a result. Freeing and
-- wiping of memory have no effect that the models show.
--
-- The while loop of drng_read_deterministic_rand runs on fuel, of which the length of the read and two
-- is enough: each round but the first takes 32 bytes. The draw of a coefficient in Vss/Split repeats
-- while it is zero, and runs on fuel that the caller chooses; the status `spinning` is the model's own
-- and says that the fuel ran out. The same holds of the draw of a challenge in DhLog, of which
-- DhLog/Challenge says how much fuel is enough, and of the draw of a coprime number in Pedersen/Keys,
-- for which no fuel is enough in every run; of the draws of primes in Paillier/Keys and of a coprime
-- number in Paillier/Cipher one round is enough where each draw is suitable, and in Paillier/CoprimeProof where every number that
-- a seed gives is coprime with n. Euclid's loop in Paillier runs on fuel that is always
-- enough. All other loops are structural.
--
-- The functions of Paillier return a negative OpenSSL code where a call fails and an error is queued, and a
-- success that wrote nothing where none is queued; both are modelled. `Yields Q P` says that every run
-- ends in a result with `P` or an error with `Q`.
--
-- The byte formats of Pedersen and Paillier are those of a little-endian machine. A buffer is the list of its bytes;
-- a read behind its end, a failed assert and a write through NULL are outcomes of the model's own. Asserts
-- are kept or dropped by a Boolean argument, since src/common/CMakeLists.txt drops them from every build
-- that is not a debug build. The length that BN_bin2bn takes is an int: from 2^31 on it is negative, and of
-- such a call nothing is assumed but that it reads nothing. The
-- Montgomery context that a key keeps is the modulus that it was set for; a context that a function
-- makes is not stored back into the key, since every statement holds for a key with and without it.
--
-- Not modelled: src/common/crypto/ed25519_algebra/curve25519.c, a copy of another library; the
-- factorization and Blum proofs of paillier_zkp.c, the range proofs and the Ed25519 algebra; the C++ services; and of the GFp curves
-- the creation of a context, the signature check, get_point_projection and abs.
pub mod Common
pub mod Drng
pub mod Keccak
pub mod Commitments
pub mod Bignum
pub mod Curve
pub mod Algebra
pub mod Schnorr
pub mod DhLog
pub mod Vss
pub mod Paillier
pub mod Pedersen
pub mod Zkp
