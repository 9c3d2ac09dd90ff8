-- ===== src/Policy.antt =====
-- src/policy: what each receiver has acknowledged, and the default policies.
pub mod AckState
pub mod Defaults
