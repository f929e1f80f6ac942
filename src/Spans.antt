-- ===== src/Spans.antt =====
-- internal/spans: the span schema, and the builder that turns the engine's calls into spans.
pub mod Schema
pub mod Builder
