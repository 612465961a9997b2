-- ===== src/Security.antt =====
-- packages/actionwitness_core/src/actionwitness_core/security: bounded summaries, redaction and
-- canonical text.
pub mod Outcome
pub mod Limits
pub mod Redaction
pub mod Canonical
