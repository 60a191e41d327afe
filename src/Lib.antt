-- ===== src/Lib.antt =====
-- AgentReady Commerce: a shop whose orders an agent prepares and a customer approves, with payment
-- over Razorpay or over a mock of Agent Pay (x402). The program's promise is that a payment binds to
-- exactly the envelope that was approved, that an order is paid on one rail once, and that repeated
-- requests have no further effect.
--
-- The files and what they model:
--
-- - Prelude, Prelude/: tests on numbers and texts, lists, JavaScript's Map, and what the program takes
--   from Node (Host: hashes, JSON.stringify of a text, number formats; Call: clock and random ids).
-- - Domain/Order, Domain/Order/Paths: packages/domain/src/types.ts, the table of transitions and
--   transitionState; Domain/Types: the mandate and the envelope.
-- - Domain/Canonical: packages/domain/src/canonical.ts, the canonical text of an envelope, its digest and
--   signature.
-- - Domain/Policy, Domain/Material: packages/domain/src/policy.ts, checkEnvelopeForPayment and
--   requiresReapproval.
-- - Core/: packages/core/src, the stores of operations (an interface with its laws, filled by the
--   memory store and by the encrypted one) and the coordinator (begin, transition, complete).
-- - Payments/: packages/payments/src, the mock and the real Razorpay adapter and the registry; the
--   HTTP calls are the parameter RazorpayApi.
-- - Catalog/: packages/catalog/src, the catalogue, scores, ranking and roles.
-- - Commerce/Session, Dialogue, Recommend, Select: the session, its memory, and the checks of a
--   selection in apps/web/lib (services.ts, dialogue.ts, intent.ts).
-- - Commerce/Step: how a handler of services.ts runs: the session it has changed, its audit entries,
--   and its answer or its throw; `enter` is setState. What was changed before a throw stays changed.
-- - Commerce/Quote, Approve, Pay, Verify, AgentPay, Confirm, Fulfil, Tamper: the handlers buildQuote,
--   approve, initiatePayment, verifyPayment, prepareX402OrderPayment, confirmX402OrderPayment, fulfil
--   and compensate, and tamper.
-- - Commerce/Shop, Services: the tables of the service, and each handler behind the coordinator.
-- - Commerce/Webhook, Commerce/Webhook/Process: apps/web/lib/webhook.ts and markVerifiedFromWebhook.
-- - Commerce/Life: the operations on an order as a step relation, and what every series of them keeps.
-- - Settlement/: packages/payments/src/x402-settlement-store.ts, the in-memory store of attempts to
--   settle. Types, Store (queries, resolveOrCreate), Moves (leases, transitions, takeover,
--   reconciliation), Release (release evidence, the check at boot), Ops (series of calls). Counting,
--   Runs, Active, Final, Claims, Resolve, Replay and Released reason on them.
-- - Settlement/Operator: packages/payments/src/operator.ts, the operator's commands and the persistence
--   of a settlement.
-- - Devnet/: packages/payments/src/devnet-machine.ts over that store: Inspect (inspectTransaction),
--   Complete (completeSettlement), Join (joinStoredRow), Settle and Accept (accept), Stage
--   (stagePreparedAttempt); Terms: the terms of a payment in x402.ts. `World` gives the clock at each
--   await of a call, and what other callers do to the store there: the theorems hold for whatever they
--   do.
-- - Machine: apps/web/lib/machine.ts, the demonstration resource and the spend on it.
-- - Budget: apps/web/lib/llm-budget.ts, the count of calls to a language model.
-- - Sessions/: Audit: packages/audit/src/ledger.ts; Token: apps/web/lib/session-token.ts; Cache:
--   createSession, pruneSessionCache, exportSession and importSession of services.ts.
-- - Examples: one order of the shop, its attempts and its session, with the theorems at them.
--
-- Every loop of the modelled code is over a list, but for joinStoredRow, which calls itself when another
-- caller has moved the attempt: it runs on fuel, its end without fuel is a result of its own (`stuck`),
-- and no theorem counts that as an answer. A sort with a comparator is the engine's insertion, with its
-- ties (Prelude/Lists). Amounts, versions and instants (milliseconds) are natural numbers, as in the source, where they are integers that are not
-- negative, with one exception: tamper takes 5000 paise off a price, which goes below 0 in the source
-- when it is repeated often enough, and stops at 0 here. The comparison of ISO instants as texts is that
-- of their numbers.
--
-- Not modelled: the conversation (respond, intentPatch and the language model behind them), the spend
-- on devnet in apps/web/lib/machine.ts, the Postgres store (SQL behind the
-- same interface) with the branches for a store that throws, the reading of Solana transactions and of
-- the configuration, the routes and pages. The prose of messages and summaries is left out where no
-- decision reads it.
--
-- In the model of the service, each operation on an order runs to its end before the next. For quotes,
-- approvals, initiations and the calls of Agent Pay withSessionLock brings that about. verifyPayment, fulfil,
-- compensate, tamper and the webhook are outside of it. Two of these await an adapter, verifyPayment and
-- compensate: `others` is what other calls do to the order there. Commerce/Verify/Laws and
-- Commerce/Fulfil/Laws are on any `others`; in the service (Commerce/Services), in the lives of orders
-- (Commerce/Life) and in Commerce/Verify/Repeated there are none. An import of a session
-- replaces the order by that of a token (Sessions/Cache): the lives of orders in Commerce/Life have none.
pub mod Prelude
pub mod Settlement
pub mod Devnet
pub mod Budget
pub mod Machine
pub mod Sessions
pub mod Domain
pub mod Core
pub mod Payments
pub mod Catalog
pub mod Commerce
pub mod Examples
