-- ===== src/Lib.antt =====
-- CarbonVeritas: a model of the event indexer and of the API's services, with the theorems about
-- them.
--
-- CarbonVeritas is a carbon-credit registry. Contracts on Soroban keep credits, offers and
-- retirements; the indexer (indexer/src) polls the RPC for their events and writes a copy of the
-- chain's state to a PostgreSQL database through Prisma; the API (api/src) serves users from the
-- same database and submits transactions to the contracts.
--
-- Files, by part of the program:
--   * Base: shared names, Boolean tests on numbers, lists measured by native numbers, maps in the
--     order of insertion, joined texts.
--   * Store: the database (api/prisma/schema.prisma). Rows are records, tables are lists, the
--     Prisma client is an interface of operations with the laws that its documentation states
--     (Store/Prisma), filled by an executable one (Store/ListClient). Store/Action is the shape
--     of a handler: a function from the world to a value or an exception and a new world. No code
--     that is modelled opens a transaction, so what was written before an exception stays
--     written.
--   * Indexer: Fetch is `fetchEvents` of indexer/src/sync.ts, Parse `parseRpcEvent` over the JSON
--     values of Json, Processors the functions of indexer/src/processors with the rows that they
--     write in Writes, Sync the class `IndexerSync`. Parse/Encode is the form of events in
--     indexer/test/sync.spec.ts, written down independently of the parser; Sync/Topics is about
--     the topics that the contracts publish.
--   * System: the API and the indexer on one database, as a relation of steps: requests of
--     signed-in users (Api/Requests), exchanges of a challenge, batches of certificates and
--     batches of events.
--   * Api/RateLimit: `RateLimitGuard` of api/src/common/guards/rate-limit.guard.ts.
--   * Api/Stellar: the methods of `StellarService` that the services call, as an interface over
--     the state of the chain. Api/Marketplace, Api/Credits, Api/Retirement, Api/Auth: the
--     services of the same names under api/src, one function for each method that changes state.
--     Api/Webhooks: the delivery loop of api/src/webhooks/webhooks.service.ts, with the answers
--     of the network as an argument. Api/Bridge, Api/Verifiers, Api/RevenueSplit: the services of
--     these names. Api/Reporting: the summary of the scope 3 report and its CSV, with a reader of
--     CSV. Api/Certificates: batches of certificates and their verification. Api/Metrics,
--     Api/Health: the services of api/src/observability. Api/Soroban: waiting for a transaction
--     in api/src/stellar/soroban-client.ts. Api/Webhooks/Registry: the webhooks of a user.
--     Api/Credits/Flags: the serial prefix and the SDG flags, of a new credit. Api/AdminGuard:
--     api/src/admin/admin.guard.ts.
--   * Api/Requests: the requests of signed-in users, as one type, behind the check of the token
--     in api/src/auth/jwt.strategy.ts; Api/Requests/Lifecycle is the abstract life of a credit.
--
-- Names are the source's in snake case, with an operation of a class named as the method.
-- Promises are run in the order in which the code awaits them; those of a `Promise.all` in the
-- order of its list. Numbers are natural: tonnes, prices and amounts are whole and not negative
-- (the columns are doubles, which are exact on whole numbers below 2^53), and instants are
-- milliseconds. The SDG goals and flags are whole numbers of either sign. Where a subtraction
-- could go below 0 the definition says so.
--
-- Loops without a bound in the source take fuel: `resync_from_genesis` returns `none` when it
-- runs out. The delivery loop of the webhooks runs on the attempts that are left, the bound that
-- the source has too. The page loop of `fetchEvents` has the source's bound (`max_pages`), and
-- `start` is modelled over the list of servers that its rounds meet.
--
-- Waiting for a receipt has fuel for every round that fits into its timeout, and two more.
--
-- Not modelled: the contracts in Rust, most queries and lists of the services, the encoding of
-- values for the contracts, the drawing of a certificate, HTTP controllers and validation, the
-- web frontend, the SDK and the command line tool, which call the API, logging and configuration.
pub mod Base
pub mod Store
pub mod Api
pub mod Indexer
pub mod System
