-- ===== src/Provider.antt =====
-- internal/provider: the errors of providers in one form, the choice of an API key, and Anthropic.
pub mod Errors
pub mod Keys
pub mod Anthropic
