-- ===== src/Domain.antt =====
-- The pure domain rules of document-rag-platform/services/backend/src/domain.
pub mod WorkGraph
