-- ===== src/Lib.antt =====
-- Verification library of posserver, the back end of a restaurant point of sale: the order aggregate
-- with its life cycle, the compiled menus, the pricing engine that quotes a cart, the outbox that delivers
-- an order's events, the broker that streams them, the commands to a store's agents, the session
-- cookies, the hours of a store, and the rate limiter.
--
-- Parts and files. A channel (web shop, operator, counter) shows a menu compiled for it, prices a
-- cart with `Price` and places an order with `NewOrder`; the restaurant's agent then reports what
-- happens on the floor by `ApplyFloorUpdate` and `ApplyNotDelivered`, and every change leaves an event
-- for the outbox.
--   Order/Types, Order/Status, Order/Aggregate: backend/internal/domain/order/entity.go, events.go:
--     the values, `Order`, `NewOrder`, `Transition`, `AttachPayment`, `recordEvent`, `PullEvents`;
--   Order/Snapshot: backend/internal/domain/order/snapshot.go, the DTOs that the events carry;
--   Order/Floor: backend/internal/domain/order/floor.go;
--   MenuView/Bank: backend/internal/domain/menu/bank.go; MenuView/View: the views and entries of
--     backend/internal/domain/menuview/view.go;
--   MenuView/Types, Rule, Compiler, Compile, Entries, Build: compile.go beside it, in the order in
--     which `Compile` works: the parts of a build, the price rule, the compiler's state, the bank's
--     items, merges and augments, the build and the vendor's mappings;
--   Pricing/Types, Live, Item and its children, Lines, Deals, Charges, Quote: types.go and engine.go
--     of backend/internal/domain/pricing, in the order of the steps of `Price`;
--   Pricing/Settings, Pricing/DealRules: backend/internal/domain/pricing/settings.go;
--   RateLimit: backend/internal/shared/ratelimit/ratelimit.go, the sliding window that guards logins
--     and reports;
--   Broker: backend/internal/infra/sse/broker.go, the streams of each store;
--   Requester, Requester/Inbound: backend/internal/rpc/requester.go, commands over the broker and replies;
--   Dispatch/Backoff, Dispatch/Dispatcher: backend/internal/dispatch/dispatcher.go;
--   Dispatch/Outbox: the store of events in outbox_repo.go and order_repo.go of
--     backend/internal/infra/database/repositories, with their statements in backend/sql/query.sql;
--   Payment: backend/internal/domain/payment/payment.go, cash and the test card;
--   StoreStatus/Hours: backend/internal/domain/tenancy/hours.go; StoreStatus/Schedule, Status, Slots:
--     backend/internal/domain/storestatus/status.go, opening hours, the status and the offered times;
--   Session and Session/Base64, Decimal, Parts: backend/internal/transport/session/session.go, the cookies
--     of store managers, with what they need of Go's base64, strconv and strings;
--   Prelude: the names that all modules use, integers, texts, the sort and the calls of Go's strings
--     and strconv packages.
-- The other modules hold the theorems, each named for what it is about.
--
-- Correspondence. A method that changes its receiver returns the changed record; a loop is a recursion
-- over its slice, the variables that it changes being its state; a closure of `Price` is a function of
-- the quote; a map is the list of its entries. A declared string type is a data type with `other` for
-- the texts that have no constant. A channel is its number, with its buffer and a flag for closed in the
-- broker; a send on a closed channel is a panic, which is a field. The loop of a dispatcher is a list of
-- what happens to the outbox; what a handler and the database answer is part of what happens.
--
-- Numbers. int64 cents, counts and basis points are exact integers ℤ (Prelude/Int, Go's truncated
-- division `quot_ℤ`), so overflow of an int64 is not modelled, save in the shift of a back-off, which is
-- taken modulo 2^64 as the code takes it. A time is its nanoseconds since Go's zero time, a duration its
-- nanoseconds, a UUID its canonical text, JSON a tree. `itoa` and the session's digits recur on
-- fuel, as many steps as the number, which is at least its digits; the loops of `ceilSlot` and `Times` on
-- two steps more than the slots between their ends, each step being a slot. A cookie is a list of bytes.
--
-- Parameters. `Ambient` carries what one call reads from the clock and the UUID generator. `World`
-- holds the time zone database (`time.LoadLocation`) and Unicode's case tables beyond ASCII, which
-- the compiler of menus takes alone as `CaseTables`. `Marshal` is `json.Marshal`. `Libraries` holds
-- HMAC-SHA256 and google/uuid. `Zone` is the calendar of a location: dates, wall-clock times and the
-- starts of hours as instants. `rand_n` is the random jitter of a back-off.
--
-- Not modelled: the generated queries, HTTP and SQS glue, the agent's and the channels' services
-- around the aggregate, geo, diagnostics, the front end; of the modelled packages the getters,
-- `Rehydrate`, `Resolve`, `ValidRunStops`, `HoursFromConfig`, the names of cookies and messages,
-- metrics and spans, the loop of the dispatcher with its ticker, an administrator's deletions of orders
-- and tenants, which take rows out of the outbox.
pub mod Prelude
pub mod Order
pub mod MenuView
pub mod Pricing
pub mod RateLimit
pub mod Broker
pub mod Dispatch
pub mod Requester
pub mod Session
pub mod StoreStatus
pub mod Payment
