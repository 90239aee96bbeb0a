-- ===== src/Lib.antt =====
-- The transaction indexer of gnolang/tx-indexer: it fetches the blocks and transaction results of a
-- chain from a node, stores them in a key-value engine, and signals each saved block to its
-- subscribers.
--
-- Parts and files:
--
-- - Base: numbers, lists, integers, bit operations and the order of byte strings, shared by all.
-- - Chain and Types: the chain's blocks and transactions as far as the indexer reads them, and the
--   event of a saved block (types/events.go).
-- - Storage.Encode: storage/encode.go. A []byte is a list of numbers. A uint32 or uint64 is a number
--   below 2 ^ 32 or 2 ^ 64; shifts and the casts to byte are written out.
-- - Storage.Keys: keyTx, keyHashTx and keyBlock of storage/pebble.go.
-- - Storage.Engine: what is not in the repository: the pebble engine with its batches and iterators,
--   and Amino. Both are parameters with laws: WriteLaws, IterLaws and CodecLaws.
-- - Storage.Pebble: the reads, iterators and batches of storage/pebble.go over such an engine.
-- - Fetch.Slots: fetch/slots.go. The insertion queue is a parameter that keeps new last items last.
-- - Fetch.Store: the interface of storage/types.go that the fetcher uses, with laws on what a batch
--   keeps, and the pebble store as an implementation of it (Fetch.Store.Items).
-- - Fetch.Fetcher: the tick (attemptRangeFetch), the collector's case, writeSlot and IsReady of
--   fetch/fetch.go, on the state of a Fetcher. Workers are what answers: any response may come next.
-- - Fetch.Worker: fetch/worker.go, over a node as a parameter (Client of fetch/types.go), and the
--   genesis of fetch/fetch.go.
-- - Events.Subscription and Events.Manager: events/queue.go, events/subscription.go and
--   events/manager.go. A schedule is a list of actions of the loop, of the callers and of the
--   subscriber; a blocked or panicking step is `none`.
-- - Filters.Poll: serve/filters/filter and serve/filters/filter_map.go: what a client polls for.
-- - Filters.Subscriptions: serve/filters/subscription.go and serve/filters/subscription. The goroutines
--   of a send write one after the other, in an order that is any permutation of the map's entries.
-- - Filters.Manager: serve/filters/manager.go. Filters.Manager.Runs: what may happen to the manager and
--   the connections, as actions in any order.
-- - Graph.Where and Graph.Filters: the filters of serve/graph/model/filter_methods_gen.go, whose
--   types differ only in their fields: `Where F` is a filter with the fields `F`. Graph.Where.Range:
--   the MinMax functions of that file. Graph.Model: the types of serve/graph/model/models_gen.go.
-- - Graph.Query and Graph.Resolvers: the loop and the queries getBlocks, getTransactions and
--   latestBlockHeight of serve/graph/all.resolvers.go, over the interface of storage/types.go.
-- - Graph.TxFilter: serve/graph/transaction_filter.go and serve/graph/block_filter.go. A panic is
--   `none`.
-- - Graph.OldQueries: the queries transactions and blocks of serve/graph/all.resolvers.go.
-- - Serve.Gas: serve/methods/gas.go and serve/handlers/gas/gas.go.
-- - Graph.Conversions: serve/graph/model/transaction.go and serve/graph/model/block.go, over the chain's
--   messages, events and JSON as parameters.
-- - Graph.Subscriptions: the subscriptions of serve/graph/all.resolvers.go and handleChannel of
--   serve/graph/resolver.go, as moves of the goroutine, of its context and of the client.
-- - Serve.Conns: serve/conns/wsconn/ws_conns.go.
-- - Serve.Handlers and Serve.Subs: serve/handlers/block, serve/handlers/tx and serve/handlers/subs, the
--   registration of the endpoints and the web socket listeners of serve/jsonrpc.go.
-- - Serve.Rpc: the requests and responses of serve/jsonrpc.go, serve/handler.go and
--   serve/spec/spec.go. A handler is any function on a state; a null request is a panic.
--
-- The fetcher calls the storage through Fetch.Store and signals events; the iterators of
-- Storage.Pebble are what the serving side reads: Graph.Resolvers.Stored puts the resolvers on them.
-- Serve.Handlers.Answers puts the handlers of blocks and transactions on them. The fetcher's events reach
-- Filters.Manager, whose filters and subscriptions Serve.Subs serves to clients.
-- Else Graph.Resolvers and Serve.Gas.Handler take any iterator, and what it lists is a hypothesis.
--
-- Bounds and fuel: the division of gaps takes as fuel a number above the last height plus one, since
-- each round moves on by at least one height; Next of a transaction iterator takes a round for each
-- upcoming entry and one more; the loops over escapes take one round for each byte and one more; the
-- loops over iterators take one round for each value and one more. The theorems give the fuel from
-- which a result is certain.
--
-- Not modelled: failures of an iterator in the middle of a walk (Error of the iterators of
-- storage/pebble.go), logging, locks where a whole call holds them, timers, the command line, the set-up
-- of the HTTP and web socket servers, the graph's subscription to transactions by the old filter,
-- generated code and the RPC client.
-- A time is a number, so the filter on times does not tell two time zones apart. Conversions of
-- JSON, regular expressions and the parsing of coins are parameters.
pub mod Base
pub mod Chain
pub mod Events
pub mod Fetch
pub mod Filters
pub mod Graph
pub mod Serve
pub mod Storage
pub mod Types
