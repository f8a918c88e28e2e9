-- ===== src/Retrieval.antt =====
-- infrastructure/retrieval/context_builder.py and the values of domain/retrieval.py that it builds: the
-- context that a model is given, under a scope and within budgets.
pub mod Chunks
pub mod Context
pub mod Bundle
pub mod Laws
pub mod Scenarios
