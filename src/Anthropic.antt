-- ===== src/Anthropic.antt =====
-- internal/ai/anthropic: the provider of Anthropic's models.
pub mod Convert
mod Samples
