-- ===== src/Lib.antt =====
-- Verification of the ledger of Hara Registry: an append-only registry of attestations and evidence
-- whose records are leaves of RFC 6962 transparency logs, with the verifiers that an auditor runs.
--
-- The parts and the files that model them:
--
-- - services/registry-ledger/src/transparency-log.ts: Sha256 (hashLeaf, hashChildren; SHA-256 itself is
--   a parameter, a function to 32 bytes), Hex (toHex, fromHex, lc), TransparencyLog (the class, with
--   its tree, paths and subproofs) and Verifiers (verifyInclusion, verifyConsistency). The folders
--   below them hold the proofs: TransparencyLog/Rfc6962 states the tree and the proofs of RFC 6962
--   apart from the code.
-- - services/registry-ledger/src/store: Store, the records of index.ts and the MemoryStore of memory.ts. An
--   object that two maps share is a cell, and the maps hold its number. Assoc is a JavaScript Map.
-- - services/registry-ledger/src/types.ts and errors.ts: Types and Errors.
-- - services/registry-ledger/src/services/ledger.ts: Ledger and the folder below it. A method is a
--   function from the state to an answer or an error and the next state (Exec), and what was
--   written before an error stays. Ledger/Service has the calls of a client as data. Ledger/Invariant,
--   Hoare, Appending and AppendOnly carry the invariant through every method; Ledger/Staying and Records
--   carry what is said of the attestations alone.
-- - services/registry-ledger/src/services/anchor.ts with canonicalSTH of pq.ts and
--   isLedgerScopedRegistry of config.ts: AnchorService. The ledger uses it through the record Anchors of
--   Ledger, which AnchorService/Heads fills.
-- - services/registry-ledger/src/auth.ts: Auth. The routes of services/registry-ledger/src/routes:
--   Routes, where a request that writes is data and `serve` hands it to its route.
-- - sdk/aurum/typescript/src/verifier.ts: Sdk. ParseInt is the `parseInt` of one byte. client.ts beside it:
--   Client, with the request loop, and Client/Endpoints, with the methods.
-- - services/anchor-worker/src: AnchorWorker. Merkle is merkle.ts; Events is the query of store.ts; Message is
--   canonicalMessage and what runOnce signs; Cycle is runOnce with the writes, the transaction and the
--   signature, and the main loop. The cursor, which starts at -1, is kept plus one.
-- - services/signer/src and services/broadcaster/src: Outbound. Database holds the tables and the queue that they
--   share; Signer is POST /v1/tx; Broadcaster is processTx with its consumer, its timer and its recovery;
--   History runs both over one database.
-- - services/rpc-cache/src/index.ts: RpcCache.
-- - services/gapura-gateway/src: Gateway, with the MemoryStore of store/memory.ts. Service is createAnchor of
--   services/anchor-service.ts and Reads its other methods; Http is auth.ts and POST /v1/anchors of
--   routes/anchors.ts.
--
-- Exec is the monad of a state and an error. Exec/Triples has rules for assertions about it, on every path, and
-- Exec/Progress rules for loops that do not run out of fuel.
--
-- How the program is modelled. Numbers are natural numbers; a shift acts on the 32-bit pattern, signed or
-- not as in the source (Prelude/Words). Texts are lists of UTF-16 code units, and `toLowerCase` acts on
-- ASCII letters. A `throw` is an error value. Methods run one after the other: what an `await` would let
-- another request do in between is not modelled. The clock, random ids, UTF-8, dates, the chain client,
-- keccak256, post-quantum signatures and the check of a token are parameters; a run numbers their uses.
--
-- Bounds and fuel. The recursions of the tree and the loops of the verifiers have 32 rounds (max_rounds),
-- since sizes are below 2^31 and each round halves. The loop of largestPowerOfTwoSmallerThan has fuel
-- too; above 2^30 it does not end in the source, and the model is stuck there. Theorems about trees hold
-- up to 2^30 leaves. merkleRoot of the worker has a round for each leaf, the polling of the broadcaster one for
-- each millisecond of its time-out, and a request of the client one for each attempt; theorems say that these are
-- enough.
--
-- Not modelled: the PostgreSQL store of the ledger, the HTTP servers and their health checks, log output and
-- metrics, key generation, the start-up of the anchor worker, GET /v1/tx of the signer, verifySthAnchored of the
-- SDK, the bindings of the gateway, its routes that read and those of identity and metering, the other
-- services, SDKs, consoles and contracts of the repository.
pub mod Prelude
pub mod Errors
pub mod Sha256
pub mod Hex
pub mod TransparencyLog
pub mod Verifiers
pub mod Assoc
pub mod Store
pub mod Types
pub mod Exec
pub mod Ledger
pub mod ParseInt
pub mod Sdk
pub mod AnchorService
pub mod AnchorWorker
pub mod Outbound
pub mod RpcCache
pub mod Gateway
pub mod Client
pub mod Auth
pub mod Routes
pub mod Tests
