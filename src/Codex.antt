-- ===== src/Codex.antt =====
-- The side of CFR that drives native Codex threads (src/cfr/codex): who may write to a thread.
pub mod RuntimeLease
pub mod WriterLease
pub mod Turns
pub mod Binding
pub mod Rollout
pub mod Watcher
