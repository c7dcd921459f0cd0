-- ===== src/Lib.antt =====
-- ticket-c2c-platform: the purchase of tickets, from the HTTP request to the inventory event.
--
-- A buyer's session lives on refresh tokens. A purchase request is parsed, filtered by a counter in
-- Valkey, decided by one PostgreSQL transaction, and announced to the search worker. The counter only
-- turns hopeless requests away, and is repaired after the transaction; the worker brings what it is
-- told into the search index, in any order and more than once.
--
-- Prelude           Shared names: tests on numbers and options, texts as code points, rows as
--                   lists with the primary key's lemmas, results of code that throws, maps.
-- Validation        src/common/validation-primitives.ts; `uuid` is the form in which PostgreSQL
--                   stores and returns a UUID.
-- Json              JavaScript values as JSON.parse and a request body give them.
-- Database          The rows of the tables. Triggers and Writes model the fences, the row guards
--                   and the two mirrors of
--                   src/database/migrations/1785542400000-add-ticket-type-compatibility-writer.ts
--                   under the UPDATE statements of updateActiveInventory; Mirror says what those
--                   leave behind.
-- Purchases         src/purchases/purchases.service.ts. Input is parsePurchaseInput, Transaction is
--                   executePurchaseTransaction with every query it makes, Resolver is
--                   src/purchases/ticket-type-resolver.service.ts, Service is createPurchase
--                   with createPurchaseDbOnly, createPurchaseLegacy, createPurchaseTicketType and
--                   reconcileTicketTypeCounter. Their children hold the proofs.
-- Cache             src/cache: Keys, Scripts (the Lua scripts) and Service (InventoryCacheService).
-- Messaging         src/messaging/inventory-event.contract.ts and inventory-version.ts.
-- Search            src/search/events-projection.store.ts: the Painless scripts on a document of the
--                   index, atomic as OpenSearch runs them. Versions reads the versioned script as
--                   a join, Delivery draws the consequences for the queue. Repair is
--                   src/search/projection-repair.service.ts with readAuthoritativeEventInventory,
--                   Reconciliation is compareEvent of src/search/inventory-reconciliation.service.ts.
-- Worker            src/worker/search-projection.worker.ts: SearchProjectionWorker on a queue with its
--                   dead-letter queue (terraform/modules/sqs/main.tf) and an index, with the
--                   updates of Search/Requests, which models runWithConflictRetry and
--                   resolveLocationDirective.
-- Auth              src/auth/refresh-tokens.service.ts: issue, rotate and revokeFamilyByToken as steps
--                   on the table refresh_tokens. Families counts the tokens that can be rotated.
--                   Cleanup is src/database/refresh-token-cleanup.ts on the same table.
-- Cutover           src/cutover: Switch is ticket-type-writer-mode-switch.ts with
--                   updateInventoryWriterMode, Counters is reconcile-inventory-counters.ts.
-- Examples          Runs on small inputs.
--
-- State is passed explicitly. A transaction takes the state that is committed when it starts and
-- gives the state that is committed when it ends, with its outcome or exception. `TxEnv` holds what
-- it cannot see coming: the id that PostgreSQL generates, the commits of others between the look at
-- the request id and the first write (`race`), and whether ROLLBACK and COMMIT go through; the reply
-- to a COMMIT may also be lost after it took effect. Locks are not modelled: from its first write on
-- a transaction runs alone, as the row locks and the writer barrier have it. What a ROLLBACK undoes
-- is not written. A query with `ORDER BY id LIMIT 2` is read only for its row count and its first
-- row where that is the only one.
--
-- A call to Valkey is a visit: other clients' commands run before it, and its request or its reply
-- may be lost. Values in the store are numbers, since every script writes decimal numbers. Request
-- markers do not expire. The requests of one purchase have ids that are not empty, which the parser
-- checks, so the truth of a string is the presence of an id.
--
-- Numbers are natural numbers where the columns are INTEGER with a check on the sign; the bounds of
-- INTEGER and of the safe integers are written out where the code or PostgreSQL tests them. Loops run
-- over lists or over the bound that the code gives them (six attempts of an update, maxBatches
-- statements of a cleanup). Only keyset pagination runs on fuel: one more than the number of rows, which
-- is enough since every page but the last takes a row.
--
-- An asynchronous call that other calls may overtake is several steps (the loads of the resolver). What
-- an update of the index, a deletion from the queue or a statement of the cleanup meets is in `Attempt`,
-- `Weather`, `Session`, `SwitchEnv` and `CounterEnv`: changes by others, conflicts, failures, replies
-- that are lost, clocks. The order in which PostgreSQL returns groups is the argument `arrange`.
--
-- Not modelled: logging and tracing, the AWS and Redis clients, passwords and access tokens, the
-- readiness checks of the cutover, events and users, the rebuild of the index, the passes of the
-- reconciliation over it, the frontend and the deployment code.
mod Prelude
pub mod Validation
pub mod Database
pub mod Json
pub mod Purchases
pub mod Cache
pub mod Messaging
pub mod Search
pub mod Worker
pub mod Cutover
pub mod Auth
mod Examples
