-- ===== src/Lib.antt =====
-- v402: pay-per-request HTTP on prepaid balances. A client signs each request with its identity; the
-- facilitator verifies the signature, reserves the price from the identity's balance, and commits or
-- rolls back the reservation after the response. Deposits on the chain fill the balances.
--
-- The files and the code:
--   Storage: packages/storage/src. Types is types.ts; State has the fields of InMemoryStorage and the
--     private helpers of memory.ts; Requests, Deposits and Records have its methods, under the methods'
--     names in snake_case. A method is a function from a storage to a result and a storage; what it
--     wrote before it throws stays written.
--   Storage/Step: the specification, a relation of the atomic changes that a storage may make, with
--     its invariants one per file below it. Storage/Refine: each method is a run of such steps.
--     Storage/History: any sequence of calls from the empty storage. Storage/Replay and Storage/Calls:
--     what a caller sees.
--   Protocol: packages/protocol/src. Amount is amount.ts and signature.ts, Extensions is extensions.ts,
--     Canonical is canonical.ts (Separation compares its texts, Plain and RoundTrip read
--     amounts back), Headers is parsePaymentHeaders of schemas.ts, identity.ts and parseSchemeHeader of packages/verifier/src/registry.ts. A regular
--     expression is the test that it makes on the code units.
--   Verifier: packages/verifier/src. Checks and PrepaidSig are prepaid-sig.ts, Types is types.ts,
--     IdentityCache is identity-provider.ts, Registry is registry.ts, Accepts is accepts.ts; Passes,
--     Forward, Payment, Settling and Agreement have the proofs.
--   Facilitator: packages/facilitator/src. Reconciliation and Maintenance are the services of those names,
--     Ledger, Balance and Payments are the controllers of those names in api/.
--   Watcher: packages/deposit-watcher/src. Attribution, Simulated and Types are the files of those
--     names; Scan is scanBlock and Poll the rest of real-watcher.ts. Traced, History, Ticks, Follows,
--     Depth, Marked, Carried and Minted have the proofs.
--   Client: packages/client-fetch/src. Handshake, AcceptsCache and Ulid are the files of those names,
--     Types has errors.ts and what the handshake sees of its surroundings. Orderly, Limits, Claim and
--     Honest have the proofs.
--   Base: strings as lists of UTF-16 code units, maps as association lists in insertion order, integers
--     over the native numbers.
--
-- How they interact: the verifier's checks read the headers and build the canonical text with Protocol,
-- and its debit and settlement call Storage; maintenance calls the reaper and the cleanup of Storage;
-- the reconciliation reads its ledger, and the balance its accounts; the
-- payment API calls Verifier. The watcher's poll and the simulated deposits call Storage. The client
-- signs the canonical text of Protocol, and what it sends is what the verifier's checks read.
--
-- Bounds and fuel: amounts are unbounded integers, as bigint is; times are natural numbers of seconds.
-- Loops are structural recursion on the list they go through, or on the rounds that are left: the
-- client's retries and recoveries, the blocks of a scan. The numeral of n is computed with n + 1
-- rounds, one per digit and more than n has digits.
--
-- Concurrency: a method of the storage runs without a pause. A method of the verifier, the
-- statement, the balance and the reconciliation wait between their calls, and a function that stands
-- there for all that other calls do to the storage is an argument.
--
-- A tick of the watcher runs to its end before the next event, and reads the clock once; the node
-- gives one answer to one question during a poll.
--
-- Parameters, for code outside this repository: lower-casing and trimming, SHA-256, base64 and UTF-8
-- decoding, the node's answers, the network of the client, its signer
-- and random bits, the clock, JSON. The cryptographic check of an identity signature
-- (packages/signer-verus) is a parameter too.
--
-- Words: a storage is solvent when, for every identity, the balance, the balance after the latest
-- ledger entry and the sum of the ledger entries are one, and there is no entry without an identity. A
-- call is tidy when it is no cleanup, and no re-mine of a deposit whose credit still counts.
--
-- Not modelled: the SQLite storage, the other HTTP layers, the validation of bodies, metrics, the
-- client's queries of the facilitator, and messages of errors.
pub mod Base
pub mod Storage
pub mod Protocol
pub mod Verifier
pub mod Watcher
pub mod Client
pub mod Facilitator
