-- ===== src/Graph.antt =====
-- The GraphQL side of serve/graph: the filters of the queries, what they accept, the range of
-- heights read off them, and the loops of the resolvers.
pub mod Where
pub mod Model
pub mod Filters
pub mod Query
pub mod TxFilter
pub mod Conversions
pub mod Resolvers
pub mod OldQueries
pub mod Subscriptions
pub mod Examples
