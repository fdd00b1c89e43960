-- ===== src/Observability.antt =====
-- useful_blockchain/observability/: what the health server answers.
pub mod Health
