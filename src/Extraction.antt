-- ===== src/Extraction.antt =====
-- src/memory_service/extraction: from the text of a turn to candidates.
pub mod LlmExtractor
pub mod RuleExtractor
pub mod Service
