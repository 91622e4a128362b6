-- ===== src/Lib.antt =====
-- Verification of the parking system: its backend with the reservations-worker, and its services
-- for payments, logins, sockets, mail and audit.
--
-- The program. backend keeps branches, parking slots, reservations and parking sessions in
-- PostgreSQL. A driver reserves a slot; an assignment policy picks the branch and the slot; the
-- entry of the car confirms the reservation and opens a session; the exit is allowed once the
-- session is paid, closes it and frees the slot; a sweep expires the reservations nobody used.
-- payments-service charges a session through one of four methods of payment and answers backend's
-- questions over gRPC; it asks backend for the quote of a session the same way, so that each of the
-- two reads what the other keeps. Calls between services go through a circuit breaker. auth-service
-- holds the users, their passwords and their second factor (TOTP and backup codes), and signs the
-- tokens that the other programs verify. Reservations come in over HTTP, are queued in RabbitMQ, and
-- are made by the worker, which answers through realtime-service. backend and payments-service
-- publish to it what the sockets should hear of, and to Kafka what audit-service stores and
-- notifications-service sends by mail.
--
-- The files.
--   Base              shared names, Boolean tests, tables as lists of rows with a key, a stable sort
--   Domain            backend/src/core/domain/enums, entities and errors
--   World             the tables as a record (backend/prisma/schema.prisma), the announcements to
--                     realtime, mail and audit as a log (core/ports/out), the environment of a
--                     request, and the monad in which a use case runs
--   Repositories      backend/src/adapters/out/persistence/prisma: one function per query or update
--   Policies          backend/src/core/domain/policies: slot assignment (DefaultSlotAssignmentPolicy,
--                     BalancedSlotAssignmentPolicy), eligibility, pricing, entry and exit
--   UseCases          backend/src/core/application/use-cases: one module per use case, with the
--                     outcome of each branch and the effect on the invariant in its child modules;
--                     the reading use cases are in Queries and Lists, the admin ones in Admin
--   Invariant         what the tables always satisfy, and what each repository update does to it
--   System            the requests of backend that write (ports of core/ports/in), and the states a
--                     sequence of them reaches
--   Breaker           adapters/out/resilience/circuit-breaker.ts of backend; the copies in gateway
--                     and payments-service have the same text
--   Payments          payments-service/src: the payment table, the methods of payment with their
--                     router, RegisterPaymentUseCase with its top-up, the sums by branch
--   Checkout          both gRPC conversations between backend and payments-service, put together:
--                     a payment followed by an exit, a rejected payment that keeps
--                     the barrier closed, and the revenue report
--   Auth              auth-service/src: LoginUseCase, RegisterUserUseCase, the MFA use cases and
--                     Rfc6238TotpAdapter, with its base32 in Base32; Tokens is JwtTokenAdapter, Social
--                     the logins with Google and Facebook and the adapters that check their tokens
--   Http              backend/src/adapters/in/http: the five controllers, JwtAuthGuard, RolesGuard and
--                     DomainExceptionFilter
--   Worker            backend/src/adapters/in/messaging: ReservationRequestConsumer, with the queue as
--                     RabbitMQ documents it: deliveries within the prefetch, and verdicts
--   Realtime          realtime-service/src: the sockets with their rooms and the relay; Publisher is
--                     what backend and payments-service publish for it (adapters/out/realtime)
--   Audit             audit-service/src: the consumer, the store, and the server of the events
--   Notifications     notifications-service/src: the consumer with its attempts to send a mail
--   Tests             sample tables and requests, and the runs of the theorems on them
--
-- State and errors. A use case is a function from the tables to a result and the tables after it:
-- `ok` with a value, or an error with what had been written by then, since the code opens no
-- transaction round a use case. One SQL statement is one atomic update. Errors are the classes of
-- core/domain/errors, with record_not_found and unique_violation for the refusals of Prisma,
-- type_error for a read of a missing object, and call_failed for a remote call that fails.
--
-- Values. Identifiers and texts of backend are natural numbers that order as their collation does,
-- 0 being the empty text; the texts auth-service reads character by character are lists of ASCII
-- codes. Dates are milliseconds since the epoch. Money is in cents, the unit of the Decimal(10,2)
-- columns and of toFixed(2). Floating-point numbers are bit patterns, and their operations are a
-- record of parameters (DoubleOps) with the laws of the order as named hypotheses; NaN is left out.
--
-- Parameters. The clock is read once per request (Env.now). The services backend calls (QR codes,
-- user lookup, payments-service) answer once per request, with failure as one of the answers;
-- Checkout replaces the answer of payments-service by what its model computes. HMAC, bcrypt and the
-- cipher of the secrets are functions that the auth model takes. The JWT library is a record (Jose);
-- what it documents of the tokens in question is a hypothesis (IsSigned, HasClaims). Where a program
-- only verifies, the library's check at the time of the call is a function from tokens to claims.
-- What Google and Facebook answer, whether a mail server takes a mail, the JSON of a message and the
-- date in a text are functions; that socket.io delivers a broadcast to the union of its rooms is a
-- hypothesis (IsUnion). In Http, payments-service is asked about the period that a request gives.
--
-- Termination. The loops of the source that are modelled run over a list of rows, candidates, steps
-- or messages, or up to a constant, and are structural recursion on it. The inner loop of base32Encode
-- takes the number of its bits as fuel: it consumes five of them a round, and is shown to end by its
-- own test.
--
-- Simplifications. Requests run one after another, so that the rows SKIP LOCKED would skip are not
-- there; the calls of the circuit breaker do overlap, an admission and an ending being two steps.
-- The worker handles one message at a time as one step. Lost connections to the database are left
-- out. Message ids (eventId) are left out of the log. A payment's missing amount below the tolerance
-- is cut at 0. The TOTP clock stands past the first step of the epoch.
--
-- Not modelled: frontend, gateway (but for its breaker), the scheduler and the gRPC controllers, which
-- hand calls on; the connections to RabbitMQ and Kafka with their reconnection; the HMAC of the QR
-- codes, bcrypt and AES-GCM, which call libraries; the texts of mails, the validation of bodies,
-- metrics, dependency injection and seeds.
pub mod Base
pub mod Domain
pub mod World
pub mod Repositories
pub mod Policies
pub mod UseCases
pub mod Invariant
pub mod System
pub mod Breaker
pub mod Payments
pub mod Checkout
pub mod Auth
pub mod Realtime
pub mod Audit
pub mod Notifications
pub mod Http
pub mod Worker
pub mod Tests
