-- ===== src/Lib.antt =====
-- A rewards program: partners report activity, users earn points in a ledger and redeem them. This
-- library models the API of packages/api, from the rows of its database up to the handlers of its
-- routes, and what the client of packages/web says of their answers.
--
-- The parts, and the files that model them:
-- - Database: Database/Schema has the rows of packages/api/prisma/schema.prisma,
--   Database/Constraints what the tables refuse, Database/Exec statements, throws and
--   transactions. A program of a transaction takes a session and gives a result and a session;
--   after a throw the session stays as written, and only `transaction` takes it back.
--   Database/Ends and Database/Keeps carry postconditions and invariants through such programs.
-- - Ledger (packages/api/src/modules/ledger/ledger.service.ts): `append_entry` is appendEntry,
--   `reverse_entry` reverseEntry, `lock_balance` lockBalance, Ledger/Reconcile has reconcile, and
--   Ledger/History listTransactions with its cursors. The statements of one function are functions
--   of their own. Ledger/Append has the ways in which appendEntry ends, and Ledger/Invariant is
--   what the services that move points through the ledger rely on.
-- - Redemption (packages/api/src/modules/redemption/): `reserve`, `compensate` and `redeem` are
--   the functions of those names; Redemption/Statements has the SQL and Redemption/Fulfillment the
--   provider. `redeem` runs two transactions, and what another client commits between them is not
--   modelled.
-- - Earning (packages/api/src/modules/earning/): the overlap check and the rule that prices an
--   event.
-- - Webhook (packages/api/src/modules/webhook/): Webhook/Event is the schema and the walk for NUL
--   characters, Webhook the capture and the processing, Webhook/Backfill the replay of parked
--   deliveries, Webhook/Settled the row that processing leaves, Webhook/Signature the verification
--   and Webhook/Route the handler. It credits through `append_entry` and prices through
--   `resolve_rule`.
-- - Catalogue (packages/api/src/modules/reward/reward.service.ts and user/user.service.ts): the
--   creation and listing of rewards, and the reads of users.
-- - Allocation (packages/api/src/modules/dev/allocation.service.ts): allocateReward, which calls
--   the ledger and the redemption for one user after another.
-- - Auth (packages/api/src/modules/auth/auth.service.ts): Auth/Passwords hashes and verifies, Auth
--   has sessions, registration and login.
-- - Http (packages/api/src/app.ts, packages/api/src/plugins/auth.ts and the routes files): Http
--   has replies, the error handler and what the schemas are built of, Http/Guards the session of a
--   request and the guards, Http/Accounts, Http/Redemptions, Http/Users, Http/Admin and
--   Http/Health the handlers, and Http/Forms the schemas of the administrator's routes.
-- - Web (packages/web/src/lib/redemption-copy.ts, packages/web/src/lib/format.ts and buildSeries
--   of packages/web/src/components/BalanceSparkline.tsx): what the client shows of an outcome, an
--   entry and a history.
-- - System: the requests and the backfill as steps from tables to tables, and the tables they
--   reach.
--
-- Ids, the clock, random numbers, `Number`, JSON.parse, hashes, dates and Node's crypto are
-- arguments. The loops of the code go over lists and are structural, so that no fuel is needed;
-- only the reader of a whole history (`read_all`, which stands for a client) takes fuel, one more
-- than there are rows. A point balance and a delta are kept in the 32 bits of their columns by
-- `fits_int4`, which the statements test; stock, prices and attempts are not bounded. Arithmetic
-- on JavaScript numbers is exact: a finite one is a fraction over a power of two, and what a
-- double rounds is left out. A row lock is only recorded: one transaction runs at a time.
--
-- Not modelled: the rest of the web client, which is user interface; seeding, the environment and
-- the start of the service, which are data and wiring; rate limits and logs; and interleavings of
-- transactions.
pub mod Prelude
pub mod Database
pub mod Ledger
pub mod Redemption
pub mod Earning
pub mod Webhook
pub mod Catalogue
pub mod Allocation
pub mod Auth
pub mod Http
pub mod System
pub mod Web
mod Tests
