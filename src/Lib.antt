-- ===== src/Lib.antt =====
-- A verification library for baobab-trade: who may buy, what a purchase may spend, what a quotation
-- says, how fulfilments and payments move, how
-- events leave, and which commitments are B2B.
--
-- The program and its model
--
-- Policy models src/baobab/b2b/buyer-operation-policy.ts, the pure evaluator that decides one buyer
-- operation from facts that the server loaded, with the vocabularies of
-- src/baobab/b2b/buyer-authority.ts and src/baobab/b2b/types.ts. Policy/Facts has its records,
-- Policy/Rules the table of operations, Policy/Evaluate `evaluateBuyerOperation`,
-- Policy/Commitment `evaluateCommitment` and `applyApproval`, Policy/Budgets `evaluateBudgets` and
-- Policy/Approval `evaluateApprovalDecision`. An early return is a value of `Check`
-- (Policy/Decision), and the steps are composed in the order of the source.
--
-- Spend models the ledger of purchase budgets. Spend/State has the tables and Spend/Ledger the
-- trigger of src/modules/b2b/migrations/Migration20261022150000.ts, with the guard and the command
-- table of src/modules/b2b/migrations/Migration20261022180000.ts. Spend/Tx, Spend/Steps,
-- Spend/Commands and Spend/Run model src/baobab/b2b/spend-reservation-commands.ts: the queries, the
-- writes, the six commands (`submit`, `resubmit`, `commit` and `commitWithMutation`, `release`, `expire`, `rollover`) and
-- `run`. A transaction is a function from the tables to a result and new tables, so what a failure
-- leaves is explicit; Spend/Serve has histories of calls, each with its own clocks. The budgets and
-- the reservation that the evaluator of Policy is given are read from these tables by code that is
-- not modelled; a commit of capacity checks them again here.
--
-- Fulfilment models src/baobab/fulfilment/fulfilment-port.ts: the checks of a request, the transition
-- table, and the adapter over a repository of records. Fulfilment/Adapter models
-- src/baobab/fulfilment/record-adapter.ts, which fills that interface over the tables of the
-- fulfilment bridge. What other requests do between the lookup of a key and the creation is an
-- argument of `request`.
--
-- Payments models src/baobab/payments/orchestration-port.ts (Payments/Port) and
-- src/baobab/payments/payment-record-adapter.ts (Payments/Adapter) in the same way. Payments/History
-- has the histories of calls over the tables. What other requests do between the lookup of a key and
-- the creation is an argument of `initiate`.
--
-- Events models the outbox: the records, claims and marks of src/baobab/events/outbox-record-adapter.ts
-- and `reconcileOutboxRecord` (Events/Outbox), the dispatcher (Events/Dispatch) and `enqueue`
-- (Events/Enqueue) of src/baobab/events/outbox.ts. Events/Histories has histories of enqueues and
-- dispatches; one dispatcher runs at a time, so no mark comes after another claim of the record.
--
-- Security models src/baobab/security/rate-limit.ts, with the window objects that the store of a process
-- shares with the calls. A call is two steps, up to its `await` and from there on; others may come
-- between them, and waiting calls go on in the order in which they began.
--
-- Commercial models src/baobab/b2b/commercial-lifecycle.ts: the transitions of requests for quotation
-- and of quotations (Commercial/Lifecycle), and `issueQuotation` with its checks of form
-- (Commercial/Issue), its decimals (Commercial/Decimals) and its timestamps (Commercial/Timestamps).
-- Commercial/Exact has the values of decimals, independent of how the source compares them.
--
-- Orders models src/baobab/orders/native-commitment-classification.ts: what proves the estate of a
-- commitment (Orders/Provenance), `classifyNativeCommitment` (Orders/Classify) and the `classify` of its
-- store (Orders/Store). The table is the list of its rows, and a transaction is one step. Orders/Binding
-- models src/baobab/orders/governed-binding-command-policy.ts: the checks of a binding's proposal,
-- approval and revocation.
--
-- Auth models `evaluateAssurance` of src/baobab/auth/buyer-assurance.ts (Auth/Assurance), over the
-- policies of src/baobab/auth/buyer-assurance-policy.ts; how these are loaded is not modelled.
--
-- Prelude has the Boolean tests, the searches of lists, the integers and the classes of characters
-- that the parts share.
--
-- Conventions
--
-- An instant is a number of milliseconds. `null` and `undefined` are `none`. A `bigint` is a ℤ in
-- Policy; in Spend an amount is a natural number, since a submission refuses an amount that is not
-- positive, the tables have checks for it, and a commit only compares its amount. A text that a database column limits to some values
-- is a data type; a role is a text, since the source compares unknown roles. A JavaScript number of
-- a shipment is not a number, infinite, or a whole number over a power of two. Every loop runs over
-- a list and is structural recursion, so no fuel is used.
--
-- What is outside
--
-- Parameters: what `new RegExp` gives for the pattern of a purchase order; the digests of
-- `node:crypto` (the digest of a request, reservation ids, entry keys); the database's calendar
-- month and clock; the mutation of `commitWithMutation`; the services of the fulfilment bridge, the payment
-- bridge and the event outbox (interfaces Bridge and Store, whose documented behaviour is IsBridge,
-- Creates and IsStore); what the Control Plane answers of a
-- commerce profile, and what the wire schema and the triggers of a table refuse; the validity and the fingerprint of an event, and how a publication ends; the host's
-- `Date` and random ids of quotations, and `Date.parse` in bindings. Theorems that need something of them say so in a hypothesis.
-- Transactions are atomic and follow one
-- another, as the advisory lock on the key and the row locks arrange; timeouts, deadlocks and
-- connections lost are not modelled beyond a pool that gives no connection. Editing budget
-- policies, loading the facts, the shape check of JSON values, `createRfq` and `commercialDigest` of
-- commercial-lifecycle.ts, HTTP, the consumers of
-- events and the other parts of the program are not modelled.
pub mod Prelude
pub mod Policy
pub mod Spend
pub mod Fulfilment
pub mod Commercial
pub mod Payments
pub mod Events
pub mod Security
pub mod Orders
pub mod Auth
