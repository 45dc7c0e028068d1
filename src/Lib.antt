-- ===== src/Lib.antt =====
-- The seckill (flash sale) core of the lottery service: orders of limited gifts on two paths,
-- and its purchase experiment.
--
-- On the Redis path a request is let in by a token bucket, draws a gift with the stock as weights,
-- and one Lua script takes a unit and notes the user's admission; a message creates the order in
-- MySQL later, a delayed message cancels it if it is not paid. On the MySQL path a circuit breaker
-- guards the database, and one transaction takes the unit and creates the order. Payment and
-- cancellation of a Redis order are decided in Redis and then written to MySQL.
--
-- Base: Boolean tests, texts and association lists over the native numbers (Base/Tests, Base/Maps),
-- rows of tables (Base/Rows), decimal numbers (Base/Decimal) and the rounding of floats (Base/Floats).
-- Breaker: internal/service/circuit_breaker.go. Limiter: internal/service/limiter.go.
-- WeightedDraw: internal/util/lottery.go. A method under a lock is a function that returns the new
-- record; time is a number of nanoseconds that the caller passes.
-- Order: the types of internal/database/order.go and order_identity.go.
-- Redis: the Lua scripts of internal/database/admission.go, each a function of the keys it touches.
-- Ledger: the SQL statements and transactions of internal/database/order.go and
-- inventory_cacheaside.go, each atomic, on the rows of `orders` and `inventory`. Ledger/Rows, Stock
-- and Conserved are about them alone.
-- Program: what handlers are made of. A call to Redis, MySQL or RocketMQ is one step on the world
-- (`perform`); between two calls of a handler any other handler may run. A schedule (Program/Schedule)
-- says who goes on, what the clock, the random sources and the measurements give, and for each call
-- whether it is answered, lost before it takes effect, or unanswered after it has. Program/Safety has
-- the rely and guarantee rule.
-- Store: the functions of internal/database as programs over these calls (Store/Admissions,
-- Store/Orders, Store/Stock; Store/Identities is about the ids).
-- Service: the handlers of internal/service/order.go (Create, Cancel, Pay, Timeout, Status),
-- lottery.go (Draw) and lottery_cacheaside.go (CacheAside), and handleOrderMessage
-- of internal/mq/order_consumer.go. A function of the source with early returns is a chain of small
-- functions here, one for each guard, under one name of the source at the end.
-- Consistency: what relates Redis and MySQL at every moment (Consistency), the effect of each call on
-- it (Rows, Calls, Statements, Transactions), then of each function and handler (Facts, Steps,
-- Functions, Recording, Cancelling, Stock, Handlers), and of all handlers at once (Schedules).
-- Redis/Format: the text of an admission key of internal/database/admission.go.
-- Purchase: the purchase experiment, internal/database/purchase_experiment.go (Purchase: the tables
-- and the commit; Purchase/Outbox: the other statements; Purchase/Traces: all of them as steps) and
-- internal/service/purchase_experiment.go (Requests, Publisher, Consumer, Batch, Runs). A commit is
-- given the snapshot that its transaction reads, which may be of any age, and the tables at its
-- UPDATE. Proofs: Stock (units), Flow (events), Retries, Repeats and Failures (the commit), Publishing
-- and Consuming (the messages), Sales and Shares (a batch), Shown and Percentile (a run).
-- Startup: InitGiftInventory and ValidateGiftInventory of internal/database/inventory.go, the reset of
-- internal/database/reset.go (proofs in Recovery and Reset), and the functions for old callers (Legacy:
-- temp_order.go, inventory.go, order.go).
-- Archive: the read model of internal/database/material_read.go (Archive; Copies and Negative are its
-- keys in Redis), and the direct and cached reads of internal/service/archive.go (Reads; the proof is
-- in Same).
-- Examples: concrete shops, breakers and buckets.
--
-- Bounds and fuel. Numbers are natural numbers: stocks, ids and times do not overflow in practice and
-- have no width here. The inner loop of Draw has the number of candidates as fuel, one candidate being
-- dropped in each round, the outer one the ten rounds of the source. RecordReleasedRedisCancellation
-- calls itself after a duplicate key; three such calls are allowed before the model gives up with an
-- error of its own. The publishing loop of the purchase experiment runs over the rounds that its
-- surroundings give, and is proved to end within as many as events are due. Rounding to
-- float64 has as fuel the bits that a value may have beyond its 53: 83 in the limiter, 53 in the draw.
--
-- Not modelled: the expiry of Redis keys (an admission outlives its order's deadline by an hour); the
-- lock by which a reset waits for all handlers; SCAN, which gives the rebuild each key once; what a
-- rebuild or a reset that fails leaves behind; gaps in the ids after an INSERT that fails; the text of
-- messages and log lines; the collation of the tables beyond the
-- letters, digits and signs of ASCII; a change of the tables between the four queries of one archive
-- read; a nil Redis client, a disabled queue and a result of the wrong type, which are errors like a
-- lost call; connections, schema, the traces, samples and times of a purchase run, the seeds and
-- experiments of the archive, load test, metrics, HTTP.
pub mod Base
pub mod Breaker
pub mod Limiter
pub mod Order
pub mod Redis
pub mod Ledger
pub mod WeightedDraw
pub mod Program
pub mod Purchase
pub mod Startup
pub mod Archive
pub mod Store
pub mod Service
pub mod Consistency
pub mod Examples
