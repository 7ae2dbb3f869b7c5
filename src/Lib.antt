-- ===== src/Lib.antt =====
-- Verification of the ServiceHub backend, the services of a rental and property platform that talk
-- over RPC and RabbitMQ and keep their data in PostgreSQL and Redis.
--
-- The parts and how they meet:
--   Every service writes its domain events to an outbox table in the transaction that causes them.
--   A poller checks the HMAC of each row and hands it to the event bus, and a consumer claims the
--   event in its inbox before it runs. The billing service moves invoices to PAID, by a PayOS
--   webhook or by a provider's record of cash, and publishes that through the outbox. What was paid
--   online is paid out to the providers in batches. Calls between the services are signed, and a
--   guard checks signature, age and first use. A limiter in Redis slows down logins. The contract
--   service keeps the contracts between providers and customers: a paid invoice activates its
--   contract, and a contract that cannot be activated has its payment refunded.
--
--   Reliability/Json       canonicalizeJson of libs/common/src/reliability/outbox.service.ts, and
--                          JSON.stringify; Reorder is what JSONB does to the order of members.
--   Reliability/Outbox     the rest of that file: OutboxMessageRow, computeSignature,
--                          verifySignature, publishLocal.
--   Reliability/Poller     libs/common/src/reliability/outbox-poller.service.ts:
--                          processPendingMessages. The rows that the query selects go through
--                          `pass` one by one; `classify` says which of the three updates the
--                          loop's body makes and `write` is that update.
--   Reliability/Inbox      libs/common/src/reliability/inbox.service.ts: claim, markProcessed,
--                          markFailed; `consume` is the frame that the event handlers share.
--   Billing/Rows           the tables of apps/billing-service and what a transaction reads from
--                          outside (`Env`).
--   Billing/Payments       apps/billing-service/src/payments/customer.payments.service.ts:
--                          markInvoicePaid with markInvoicePaidInTransaction, and
--                          markPaymentFailed.
--   Billing/Invoices       apps/billing-service/src/invoices/invoices.service.ts: payInvoice.
--   Billing/Sagas          the same file's handlers of events: contract cancelled, activation
--                          failed, fine imposed.
--   Billing/Payouts        apps/billing-service/src/payouts/payouts.service.ts:
--                          findEligibleInvoices, ensureBatchReservation; (Results)
--                          persistPayoutResults, markBatchUnknown; (Queue) the retry queue in Redis
--                          with its worker.
--   Contracts/Rows         the tables of apps/contract-service, the answers of other services
--                          (`Remote`) and what a call takes from outside (`Env`).
--   Contracts/Drafts       apps/contract-service/src/contracts/provider.contracts.service.ts:
--                          createContract.
--   Contracts/Edits        the same file's updateContract: the comparison with the stored contract
--                          and the writes; Updates has its checks.
--   Contracts/Provider     sendContract, revokeContract, cancelContract.
--   Contracts/Activation   handleInvoicePaidEvent.
--   Contracts/Customer     apps/contract-service/src/contracts/customer.contracts.service.ts: the
--                          customer's approval, by signature or by confirmation, and the request
--                          for a prepayment invoice.
--   Contracts/Prepaid      activateContractAfterPrepayment and the timer over contracts that await
--                          a payment.
--   Contracts/Booking      createServiceBooking, cancelService.
--   Contracts/Restrictions who may not order what: blockCustomer, liftRestriction and the checks.
--   Contracts/Violations   apps/contract-service/src/violations/violations.service.ts: handleAction.
--   Contracts/Lifecycle    the life cycle as a table of transitions, each operation as one of them,
--                          and the runs of all operations; Keys, Races.
--   Security/Hmac          libs/common/src/security/hmac.service.ts.
--   Security/Replay        libs/common/src/security/replay-protection.service.ts.
--   Security/Guard         libs/common/src/guards/hmac.guard.ts; Trust says what it checks in other
--                          words.
--   Security/Throttle      libs/common/src/rate-limit/redis-throttler-storage.service.ts with its
--                          Lua script, and libs/common/src/guards/auth-throttle.guard.ts.
--   Signatures             apps/signature-service/src/signatures/signatures.service.ts:
--                          signContract, verifyContractSignatures. The contract service takes
--                          their verdict as an answer.
--   Signatures/Keys        apps/signature-service/src/keys/keys.service.ts: createKey and
--                          getDecryptedPrivateKeyForSigning, whose answer signContract takes;
--                          Custody puts the two together.
--   Base                   shared tests, lists, texts and tables.
--
-- State and concurrency. A table is a list of rows, and an operation takes the tables and returns
-- its answer with the tables after it. Where a transaction reads, and later writes under a
-- condition, what other transactions commit in between is an argument `between`, a function on
-- the tables. Times are milliseconds; database keys are numbers that are only compared; a text is
-- the list of its UTF-16 code units; money is in hundredths of a dong. Numbers are unbounded:
-- counters and revisions stay far below 2 ^ 53.
--
-- In Contracts/Lifecycle the operations do not overlap, and a payment comes for a contract that
-- awaits one; Races and Activation/Paid say what happens otherwise.
--
-- Fuel. Loops run over lists. The loop that returns jobs in flight to the queue runs on their
-- number, which empties the list; the worker's on its batch size of ten.
--
-- Parameters. Code outside the repository is an argument: Date.toISOString and node's digests
-- (`Platform`, `Digest`), GnuPG (`Gpg`, `KeyReplies`), the ciphers (`Crypto`), the calendar, the
-- broker's answer (`Emission`), and whether Redis answers. The answers of the services that a
-- call asks are arguments too. The hypotheses on all this are that a hex digest is not empty,
-- that decryption inverts encryption, and that what a key has signed verifies under it.
--
-- Not modelled: the gateway's controllers and DTOs; the catalog, identity, notification and
-- audit services; the RabbitMQ event bus, whose rejected promises nobody handles; the keyring's
-- files of the signature service; the listings of the contract service and its PDFs;
-- processRetryJob and the schedule of payouts, PayOS webhooks, meters and the read-only
-- dashboards of the billing service; retention, whose queries name columns that the tables lack;
-- third-party clients, seeds and deployment.
pub mod Base
pub mod Reliability
pub mod Billing
pub mod Contracts
pub mod Security
pub mod Signatures
