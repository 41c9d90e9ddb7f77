-- ===== src/Feishu.antt =====
-- The Feishu side of CFR (src/cfr/feishu): messages, the durable store and the gateway.
pub mod Model
pub mod Store
pub mod Security
pub mod Gateway
pub mod Replies
pub mod Daemon
