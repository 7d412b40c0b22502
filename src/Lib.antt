-- ===== src/Lib.antt =====
-- A verification library for the agent authorization gateway: the Python package `gateway`.
--
-- An agent registers a key, proves that it holds it, and asks the gateway for one action on one
-- resource. The gateway checks the proof, evaluates its policy, signs a receipt into a hash chain and,
-- for an approval, issues a token that a protected resource accepts once. Receipts and other
-- artifacts are logged, and the roots of their Merkle trees are anchored; anyone can verify a
-- receipt, a chain or an inclusion proof.
--
-- Files, with the code that they model:
--   Base        Python's texts, dicts, hex and integers; tests, lists and results.
--   Canonical   gateway/canonical.py: `canonicalize` on a data type of Python values.
--   Merkle      gateway/merkle.py, and the walk along an inclusion proof in the offline verifier
--               (`recompute_root`).
--   Policy      gateway/policy.py: `evaluate` with its rate counters; Policy/Hash is `policy_hash`.
--   Receipts    gateway/receipts.py: `sign_decision` on the state of a `ReceiptChain`.
--   Verify      gateway/verify.py: `verify_receipt`; Verify/Chain is `verify_chain`.
--   Identity    gateway/identity.py: `AgentRegistry`, `RegistrationChallengeCache`; Identity/Proofs is
--               `verify_agent_proof` with its cache.
--   Tokens      gateway/tokens.py: the digest of an action and the payload of a token;
--               Tokens/Middleware is gateway/middleware.py.
--   Resources   gateway/resources.py: the registry in memory with its cache.
--   Gateway     gateway/gateway_service.py: `authorize`, which calls the components above in order.
--   Liveness    gateway/liveness.py: the state machine of an agent, the manager and its sweep.
--   Artifacts   gateway/artifact_log.py, and a pass of the loop of gateway/anchor_scheduler.py.
--   Evidence    gateway/evidence_buffer.py: the queue, its batches and `flush`; Evidence/Drain is the
--               background task with `start` and `stop`.
--   Registration gateway/identity.py: `verify_registration_proof`; Registration/Routes is the routes of
--               gateway/api.py that issue a challenge, register an agent and delete it.
--   Store       gateway/store.py: `InMemoryStore`; Store/Saved is its specification.
--   Isolator    gateway/isolator/isolator_service.py: `isolate`, which deletes agents by a route of
--               gateway/api.py.
--   Packet      gateway/audit_packet_verifier.py: the report over a packet; Packet/Signatures, Links,
--               Proofs and Crosscheck are its steps, Packet/Verifier is `verify_audit_packet`.
--               Packet/Ordered and Packet/Walks describe the order of the receipts and the walk along
--               a proof without the code's sort and loop.
--   Export      gateway/api.py: `get_audit_packet`, whose packets the offline verifier reads.
--   Probes      gateway/verification: the probes of _http.py, the AWS signature, and the five verifiers
--               (Probes/Verifiers).
--   Fixtures and the modules named Tests hold test data and instances.
--
-- State is passed explicitly: a method that changes an object takes its record and returns the new
-- one. An exception is the `err` of a result; where the source has changed state before it raises, the
-- state is returned beside the error. A dict is a list of entries in insertion order.
--
-- Parameters: SHA-256, the Ed25519 signature and its check, `jwt.encode` and `jwt.decode`,
-- `str.lower`, the answer of an agent's callback, what a URL with an agent id leads to, the network
-- that a probe asks with Google's credentials, `urlparse`, `quote`, HMAC, `base64.b64decode`, the
-- analysis of an incident by a model, the saves of a store and the submission of an anchor. What a
-- theorem needs of one of them is a hypothesis of that theorem. The clock is read once for each call,
-- and time is a whole number of one unit. Numbers are natural numbers without a bound, as Python's
-- integers have none; a difference that may be negative is written as a sum on the other side.
--
-- Fuel: the decimal digits of n take n + 1 steps; a Merkle level of n nodes takes n steps, since each
-- level is shorter than the one below; `flush` takes one step for each item of its queue, since each
-- batch has an item. That this is enough is part of the theorems on these functions.
--
-- Not modelled: Firestore (the in-memory branches are), HTTP and its servers, the agents that call
-- language models, the loading of keys and of policy files, rendering, logging, the messages of errors,
-- and the cancellation of background tasks but the one of the evidence buffer.
pub mod Base
pub mod Merkle
mod Fixtures
pub mod Policy
pub mod Canonical
pub mod Receipts
pub mod Registration
pub mod Isolator
pub mod Verify
pub mod Liveness
pub mod Artifacts
pub mod Evidence
pub mod Identity
pub mod Resources
pub mod Tokens
pub mod Gateway
pub mod Store
pub mod Packet
pub mod Export
pub mod Probes
