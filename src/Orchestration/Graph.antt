-- ===== src/Orchestration/Graph.antt =====
-- orchestration/graph.py: the work graph, by its parts.
pub mod Fields
pub mod Order
pub mod Validation
pub mod Compilation
