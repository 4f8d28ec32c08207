-- ===== src/Lib.antt =====
-- foc-app: errands on a campus, paid in credits that students reserve, earn and get back.
--
-- The parts that carry the logic are modelled here. The order service keeps an errand's life: a table
-- of transitions decides every command, and one repository path applies the decision to the row, its
-- history and the outbox. The credit service keeps the wallets: it reserves an errand's reward, pays it
-- to the courier or returns it, and answers each request once however often a message arrives. The two
-- talk by events only: a decision of the order service emits a request, and the credit service's reply
-- is a further command on the errand. Events leave a service by its outbox, which a relay publishes
-- from, and reach another by a consumer that retries what fails and sets it aside at last. The user
-- service signs people in: it keeps the sessions that a refresh token continues, and the passwords
-- and mailed links that end them. The order service's hub of live updates and the user service's rate
-- limiter stand alone.
--
-- Common (Tests, Lists, Tables, Text): names and lemmas that every module shares.
-- Order: order-service/src/orders.
--   Types: types.ts, the row of an errand and its parts.
--   StateMachine: order-state-machine.ts. Vocabulary has the actions, actors and decisions, Table is
--     ORDER_TRANSITIONS, Decide is decideTransition; Laws, Authority, Traces and Progress are proofs.
--   Lifecycle: orders.repository.ts. Store has the tables, Patch the columns that a command may
--     set, Transition (with Command) is transitionUsing, Accept is acceptUsing, Shape the CHECK
--     constraints of db/schema.ts; Rows, Valid, Announce, Outcome, Acceptance and Race are proofs.
--   Receipts: insertReceipt and findReceipt of orders.repository.ts.
--   Results: order-service/src/reservation-results.consumer.ts and the release half of
--     credit-terminal-results.consumer.ts, Results/Transfer its transfer half; Handled and
--     Transfer/Completed are proofs. Whether a user is suspended, which the user service answers, is an
--     argument.
--   Views, Service, Creation: orders/orders.service.ts, with withCommandKey, createPending and participants
--     of orders.repository.ts. Views is projectOrder and publicOrderView, Service is accept, command and
--     resolve under an Idempotency-Key, Creation is create; Calls has sequences of them, with any change
--     of the tables in between. What the supplier service answers and the fingerprint of a request
--     are arguments. Reads is getById, history and receipt, with findHistory. Private, Outcomes, Unseen,
--     Resolved, Created, Retried and Masked are proofs.
--   Live: orders/live/live-hub.ts; Limits, Owned and Privacy are proofs.
-- Credit: credit-service/src.
--   Types: credits/types.ts. Db: db/schema.ts and the SQL statements of credits/credit.repository.ts.
--   Repository: credits/credit.repository.ts. Issue is issueInitial, Reserve is reserve, Checks what
--     release and transfer share, Release and Transfer those two; Effects says what a call that
--     returned has changed, and Replay what a repeated call answers.
--   Measures and Invariants: credits/invariants.ts and the checks of credits/ledger-audit.service.ts.
--   Wallets: the ledger of credits/wallets.service.ts and listLedger of credits/credit.repository.ts, in
--     pages; Sorted and Pages are proofs.
--   Consumers: wallet-provisioning.ts, reservation-consumer.ts and terminal-consumers.ts, on the inbox of
--     platform/src/events/inbox.ts.
--   Economy: the closed economy of docs ADR 0007 as an invariant, kept by each operation, and what
--     follows from it for any sequence of messages.
-- User: user-service/src.
--   Limiter: auth/rate-limiter.ts, RateLimiter and authRateLimits. Live, Windows and Policy are proofs.
--   Accounts: the tables of db/schema.ts and the statements of users/users.repository.ts that signing
--     in uses. Sessions: auth/sessions.repository.ts; Sessions/Service is login and refresh of
--     auth/sessions.service.ts, Sessions/Passwords its other methods and auth/emailed-link.ts. Calls
--     has sequences of calls; Rows, Changes, Families, Refresh, Rotation, Once, Secrets,
--     Credentials, SignIn, EmailedLink and Resets are proofs.
-- Platform: platform/src/events, the library that the services share.
--   Outbox: outbox.ts, insertOutboxEvent, CLAIM_SQL and OutboxRelay. Sequence, Claims, Histories,
--     Backlog, Ticks and Drained are proofs.
--   Consumer: handle and retryOrDeadLetter of consumer.ts, parseEnvelope of envelope.ts, sender.ts, the
--     retry levels of topology.ts, redriveProperties of dead-letters.ts. Senders, Journey, Attempts
--     and Exhausted are proofs.
--
-- Correspondence. Identifiers are compared only, so they are numbers, and so are times, in
-- milliseconds. An identifier that randomUUID draws is an argument, and nothing assumes it to be new
-- unless a theorem says so: a clash is a unique violation, as in the database. Balances, amounts and
-- versions are natural numbers; every subtraction of the source stands behind its guard, and a column
-- past the range of a PostgreSQL integer raises. A table is a list of rows, and an UPDATE or INSERT
-- is a function with the keys, foreign keys and CHECK constraints that its statement can run
-- into. A database transaction is a function from the tables to a result: an error leaves the tables
-- as they were. Concurrency is at that grain: row locks and unique keys make the source's transactions
-- on one errand run one after the other, and the order of messages is any list. The calls on the
-- sessions of an account are taken one after the other too, although lockByHash locks the session's
-- row only. The requests that the reconciler repeats for a waiting errand are not modelled. A method that reads
-- the tables, hashes a password and only then writes takes the tables twice. Three loops take fuel:
-- the relay's tick, for which one more than the number of unpublished rows is enough, and the
-- attempts of a message, for which one more than those that are left is, and
-- a client that follows cursors, for which one more than the rows is; that is proved. Every other
-- loop is structural recursion.
--
-- Not modelled: the fault hooks, which only tests pass; created and updated times of the credit tables;
-- the JSON details of alerts; logging and metrics; zod's parsing of payloads; the HTTP routes. The
-- broker is taken at its word: it confirms or refuses what is published, puts a message of a retry
-- queue back on its queue, and vouches for the account that published one. Argon2, SHA-256, the signer
-- of access tokens and the normal form of an address are parameters, as are JSON and the schemas of
-- an event; nothing is assumed of them. A handler of the order and credit services gets the parsed
-- message.
pub mod Common
pub mod Order
pub mod Credit
pub mod User
pub mod Platform
