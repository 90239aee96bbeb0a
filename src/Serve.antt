-- ===== src/Serve.antt =====
-- The serving side of serve/ without the graph: gas prices, the web socket connections, the dispatch of
-- JSON-RPC requests and their handlers.
pub mod Gas
pub mod Rpc
pub mod Conns
pub mod Handlers
pub mod Subs
pub mod Examples
