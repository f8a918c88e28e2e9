-- ===== src/Retrieval/Laws.antt =====
-- What the context of a model never exceeds and never shows.
pub mod Rules
pub mod Budgets
pub mod Scoped
