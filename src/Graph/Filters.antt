-- ===== src/Graph/Filters.antt =====
-- The Eval methods of serve/graph/model/filter_methods_gen.go: for each type of object the filters of
-- its fields, in the frame of `Where`. The methods of the types NestedFilter… are modelled, and of the
-- root types; the other Filter… types have the same methods and no query uses them.
pub mod Coins
pub mod Messages
pub mod Events
pub mod Roots
