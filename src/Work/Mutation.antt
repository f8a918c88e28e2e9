-- ===== src/Work/Mutation.antt =====
-- application/work_graph.py: `ScopedMutationDispatcher`, the effect that creates one file in a directory.
pub mod Tree
pub mod Paths
pub mod Scoped
pub mod Laws
pub mod Scenarios
