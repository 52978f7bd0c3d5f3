-- ===== src/Lib.antt =====
-- The execution-finality reference implementation (the Python package src/finality_ref): an act is
-- described, authorised against a policy and a protected state, presented to a finality sink, and
-- made effective at most once.
--
-- The parts and their files. An act (`CandidateAct`) and the records made for it are in Models, their
-- canonical bytes and digests in Canonical. A `ProtectedAuthority` (Authority) asks the policy
-- (Policy), advances the protected state (State), commits signed evidence (Evidence) and returns a
-- signed capability. A `FinalitySink` (Sink) verifies the capability and the act under its own
-- identity, against evidence and state, asks for a proof of possession where it is configured to
-- (Pop), claims the capability in a consumption store (Consumption), calls the effector (Effectors)
-- and signs a receipt. Signers are in Crypto. Race has threads in a sink, Protocol the theorems about
-- the parts together, Programs the scripts that put the parts to work, Examples the runs.
--
--   Errors         src/finality_ref/errors.py
--   Canonical      src/finality_ref/canonical.py: normalize, dump, canonical_bytes, sha256_hex
--                  (Scalars, Printed, Prefix, Ordered, Injective, Fields: reading the bytes back;
--                  Clean, Encodable, Accepted, Described: the values that have bytes; Throughout,
--                  Inside: what holds of every text inside; Profiles: the two profiles)
--   Models         src/finality_ref/models.py (Acts: the act and its descriptor; Tokens: the rest)
--   Crypto         src/finality_ref/crypto.py
--   Evidence       src/finality_ref/evidence.py
--   Policy         src/finality_ref/policy.py
--   State          src/finality_ref/state.py, ProtectedState
--   Consumption    src/finality_ref/state.py, the two consumption stores, and their protocol in sink.py
--   Effectors      src/finality_ref/effectors.py
--   Pop            src/finality_ref/pop.py
--   Authority      src/finality_ref/authority.py
--   Sink           src/finality_ref/sink.py (Effectuate and Receipt: the method `effectuate`)
--   Surface        src/finality_ref/surface.py
--   Profiles       src/finality_ref/profiles.py
--   Race           src/finality_ref/sink.py, `effectuate` in several threads
--   Programs       examples/demo.py (Demo), examples/strict_non_bearer.py (NonBearer),
--                  vectors/generate_finality_case.py (Cases), vectors/generate_vectors.py
--                  (Vectors), scripts/benchmark.py (Benchmark);
--                  Session is what they share: authorize, prove possession, effectuate;
--                  Trail and Throughput are about a loop of sessions on one system
--   Prelude, Exec, Platform    shared types, the monad of methods, the world outside
--
-- How the code is modelled. A method that changes an object is a function from the object's state to
-- a result and the next state: what was written before a raise stays written. The authority and the
-- sink share two stores, which the record `Vault` holds. An exception is a value of `Error`. An
-- object's lock makes its method one step; a thread in `effectuate` makes the claim and the effect as
-- two steps, and a schedule orders the steps of all threads. `now` is the argument `now_ns`, or the
-- reading of the clock. Python's ints are integers without bound, its text is a list of code points,
-- a dict an association list in insertion order, a frozenset a list of which only membership is
-- asked.
--
-- Fuel: `decimal` prints a number in as many rounds as the number's successor; each round divides
-- by ten, so the rounds do not run out (`digits_enough`, in Canonical/Scalars). All other definitions
-- are structural recursions.
--
-- From outside the repository, as parameters: Unicode NFC, SHA-256 and HMAC-SHA-256 (`Platform`), the
-- Ed25519 keys (`Ed25519Library`), and the floats of the benchmark (`Floats`). The theorems that need
-- it assume that a hex digest is ASCII, that NFC leaves ASCII text as it is and makes no surrogate
-- (both in `IsDocumented`) and what it makes of three keys (`KeysInNfc`), that Ed25519 keys verify
-- what they signed, and that a signer verifies what it signed (`Verifies`), which is proved of the
-- HMAC signer.
--
-- Collisions of SHA-256 are not assumed away: the theorems that need it say that two different byte
-- strings have one digest as an alternative, and name them: the canonical bytes of two acts
-- (`Collision`), or what two of the calls of a loop digest (`Clash`, in Protocol/Clash). A single call
-- asks that the id that it computes is not taken (`Grants.new_id`).
--
-- The SQLite store raises `UnicodeEncodeError` for a text with a surrogate and `OverflowError` for a
-- time beyond 64 bits, where the dict takes the claim. The contract of single use that theorems about
-- a store ask for (`IsSingleUse`) is that of the dict; `sqlite_store` observes the committed rows.
--
-- Not modelled: the timeout of a wait for SQLite's write lock, and SQLite's limit on the length of a
-- text; CPython's limit on the digits of an integer that is printed; what the scripts print and the
-- files that they write; the timers and snapshot of the environment in scripts/benchmark.py; and the
-- Go and Node implementations.
pub mod Prelude
pub mod Errors
pub mod Exec
pub mod Platform
pub mod Canonical
pub mod Models
pub mod Crypto
pub mod Policy
pub mod Evidence
pub mod State
pub mod Consumption
pub mod Effectors
pub mod Pop
pub mod Authority
pub mod Sink
pub mod Surface
pub mod Profiles
pub mod Race
pub mod Protocol
pub mod Programs
pub mod Examples
