-- ===== src/Lib.antt =====
-- CleverCon: how the service and its workers take, run and pay the tasks of buyers.
-- A task's steps are handed to service providers over HTTP (executor), their deliveries are checked
-- (service-verify), held for a dispute window or released, paid by a proof-gated release from the
-- on-chain vault (settlement, with the proofs of spend-policy-prover and policy-inputs), and the
-- task is finalised when its releases are settled. Spending rules (rule-model) say what a buyer's
-- agent may pay. The REST service creates payments, lets a buyer approve and answer steps, and has
-- disputes resolved; the indexer mirrors the vault's events. The parts share the database's tables
-- and the delayed queues; a settlement and a finalisation act on the vault through the delegate's
-- transactions (sequence).
--
-- The files, by the code that they model:
-- Store/Rows, Store/Tables: the enums and models of packages/db/prisma/schema.prisma, and the
-- queries and updates on them. `World` holds the tables, the queues, the time in milliseconds
-- and the state `V` of the vault, which is a parameter. Ids and addresses are numbers, amounts
-- are in ten-millionths of a USDC.
-- Worker/Chain: submitDelegateCall of services/workers/src/sequence.ts, completeTaskOnChain and
-- the kinds of chain errors of services/workers/src/settlement.ts. The loops over four attempts
-- and thirty polls are recursion on the rounds left.
-- Worker/Env, Worker/Settle: settleStep of settlement.ts; its reads (`prepare`) and its actions
-- (`carry_out`) are two functions, so that a race can run the reads of one settlement before the
-- actions of another. Settle/Batch is settleBatch with recordBatchActivity; Settle/Finalize is
-- finalizeTaskIfComplete with recoverOrphanLocks.
-- Worker/Host, Worker/Execute: services/workers/src/executor.ts; Execute/Task is executeTask,
-- Execute/Poll is pollStep, Execute/Release is releaseHeldStep.
-- Worker/Jobs: the settlement queue's handlers of services/workers/src/index.ts. The recursion is on
-- the attempts left, the number that a job's producer gives it; what the other workers do between
-- two attempts is a parameter. Worker/Prover: prover.ts. Worker/Health: health.ts.
-- Api, Api/Summary, Api/Tasks, Api/Lines, Api/Payments, Api/Eligibility, Api/Hires: create,
-- createPayment, raiseDispute, approve and answerStep of
-- services/api/src/tasks/tasks.service.ts, with what they use of
-- services/api/src/policies and of services/api/src/queue. The checks of a payment (`admit`) and its
-- insertion (`insert_task`) are two functions, so that two requests can race. Api/Disputes:
-- services/api/src/disputes/disputes.service.ts.
-- Indexer: services/indexer/src/indexer.ts and the loop of its index.ts; a round of the loop is
-- `poll`, and one event's transaction is `commit`.
-- Service/Verify: packages/common/src/service-verify.ts, over the JSON values of Json. The
-- validator's fuel is the size of the schema, which is proved to be enough.
-- Proof/Inputs, Proof/Binding: packages/common/src/policy-inputs.ts and spend-policy-prover.ts,
-- over the bytes of Proof/Bytes. The search for an opening has the code's million rounds.
-- Proof/Allowlist: packages/agent-sdk/src/payments/allowlist.ts, over a Poseidon that is a parameter.
-- Proof/Batch: the slots of buildBatchWitness in batch-prover.ts beside it.
-- Rule: packages/common/src/rule-model.ts.
-- Prelude: names, tests and integers that all of them share. Tests: concrete runs.
--
-- Parameters stand for code outside the repository's TypeScript: the vault's transactions and views
-- (contracts/), the RPC server, SHA-256, Poseidon and XDR, JSON.parse and JSON.stringify, the signature check,
-- the providers, the judge, the queues, the Redis lock's time-outs, the database's faults on the
-- insertion of a payment and on the indexer's transactions, and Prisma's decimals. What is relied on
-- is stated with each theorem: that a digest has 32 bytes and that the vault
-- answers a repeated release of the same step, amount and payee with success and without effect, as
-- its documentation says.
--
-- Not modelled: concurrent writes within one pass of the executor or within one poll, faults of the
-- database other than those named, logging, the delivery of web hooks and of messages to browsers,
-- floating-point rounding, the decoding of the chain's events, the service's other operations
-- (policies, providers, accounts, sessions), the rest of the SDK, the web application, and the contracts and
-- circuits.
pub mod Prelude
pub mod Json
pub mod Store
pub mod Proof
pub mod Rule
pub mod Service
pub mod Worker
pub mod Indexer
pub mod Api
pub mod Tests
