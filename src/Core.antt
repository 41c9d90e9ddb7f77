-- ===== src/Core.antt =====
-- src/cfr/core: what CFR observes of a turn.
pub mod Telemetry
