-- ===== src/Lib.antt =====
-- macula-pq: post-quantum cryptography for a TLS transport. The repository's crates build on each
-- other: macula-keccak (SHA-3, SHAKE) serves macula-mlkem (ML-KEM, FIPS 203) and macula-mldsa
-- (ML-DSA, FIPS 204), macula-pqc-kx composes ML-KEM with an elliptic curve into hybrid key exchange
-- groups for rustls, and macula-pqc configures TLS with them and with ML-DSA-87 keys.
--
-- Which file models what:
--   Keccak/Permutation   macula-keccak/src/lib.rs: `keccak_f1600` and its constants
--   Keccak/Sponge        macula-keccak/src/lib.rs: `Absorb` and `Squeeze` as records, their methods as
--                        functions from a state to a state, and the public functions over them
--   Mlkem/Field, Ntt     macula-mlkem/src/poly.rs: coefficients, transforms, products
--   Mlkem/Encode         macula-mlkem/src/encode.rs
--   Mlkem/Sample, Hash   macula-mlkem/src/sample.rs and hash.rs; `Primitives` is the interface through
--                        which the scheme uses them, and Keccak's functions fill it
--   Mlkem/Params, Kpke   the parameter sets of macula-mlkem/src/lib.rs, and macula-mlkem/src/kpke.rs
--   Mlkem/Kem            macula-mlkem/src/lib.rs and internal.rs
--   Mldsa/Field, Ntt, Rounding   macula-mldsa/src/poly.rs
--   Mldsa/Params, Api    macula-mldsa/src/lib.rs: parameter sets, lengths, and the entry points
--   Mldsa/Encode, Keys   macula-mldsa/src/encode.rs
--   Mldsa/Sample         macula-mldsa/src/sample.rs
--   Mldsa/Generate       macula-mldsa/src/internal.rs: key generation; `verify` and `sign` of that
--   Mldsa/Verify, Sign   file, under the names verify_formatted and sign_formatted, and all they call
--   Mldsa/Correct        proofs on key generation, signing and verification together
--   Kx/Hybrid            macula-pqc-kx/src/lib.rs
--   Kx/MlKem             macula-pqc-kx/src/ml_kem.rs
--   Tls/Der, Keys        macula-pqc/src/signatures.rs: DER, and the forms of keys
--   Tls/Signing          macula-pqc/src/signatures.rs: the loader, signer and verifier for rustls
--   Tls/Possession       macula-pqc/src/key_possession.rs, and the list of signature algorithms
--   Tls/Provider         macula-pqc/src/lib.rs: `provider`
--   Common               what all of them share: lists, machine words, bit laws, outcomes
-- The child modules of these hold the proofs, and the modules named Tests hold concrete runs.
--
-- How the code is modelled. A machine integer is a natural number below 2^w, its bit pattern, and each
-- operation on it wraps as it does in a release build; a polynomial is the list of its 256
-- coefficients; a byte string is a list of numbers. A call ends in an `Outcome`: a value, an error, a
-- panic (an assertion, a slice or an index out of range, chunks of size 0), or `stuck`. What the source
-- writes into a buffer of the right length, left to right, is the list of the bytes written.
-- Arrays of a fixed size stand as lists of the part in use: an index at or past K_MAX or L_MAX, and a
-- commitment that does not fit its 64 bytes, is a panic, while an iteration over `take` of such an
-- array stops at its end. Theorems on every parameter set name the bounds that they need, as
-- `IsBounded` (Mldsa/Sample/Total) and `IsAdmissible` (Mlkem/Params).
--
-- Bounds and fuel. A loop that counts is a structural recursion. The sponge's loops take fuel of the
-- length of their input: a round consumes at least one byte. The transforms' loops take N rounds for
-- the blocks and one round more than there are layers. The packing loops take fuel of the number of
-- bits held: a round takes eight. The rejection loops take their fuel as an argument, since no bound
-- holds for every stream, and answer `stuck` when it runs out; the signing loop takes the attempts it
-- may make in the same way. `Yields` (Common/Yields) says that a call neither fails nor panics and that
-- its value, if the fuel lasts, has a property; `Ends` (Common/Ends) that the fuel lasts. What
-- verification and key generation return is stated with `Ends` of the samplers they call.
--
-- Not modelled: the randomness of the operating system (a parameter of the entry points), the elliptic
-- curve groups, the traits of rustls, its parser of certificates and rcgen (records of functions and
-- parameters), wiping of secrets and timing (no effect on results), and the configuration builders of
-- macula-pqc/src/lib.rs, which only hand the provider to rustls.
pub mod Common
pub mod Keccak
pub mod Mlkem
pub mod Mldsa
pub mod Kx
pub mod Tls
