-- ===== src/Traversal.antt =====
-- crates/rb-query/src/graph/traversal: callers and callees by breadth-first search over the call
-- graph, and their pages.
pub mod Types
pub mod Hop
pub mod Fetch
pub mod Paginate
pub mod Levels
pub mod Hops
pub mod Direction
pub mod Rounds
pub mod Reach
pub mod Layers
pub mod Search
pub mod Pages
pub mod PageNodes
pub mod Shortest
pub mod Cycles
pub mod Cursors
pub mod Answers
