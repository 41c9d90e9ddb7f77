-- ===== src/Feishu/Daemon.antt =====
-- src/cfr/feishu/daemon.py: how the daemon schedules chats on its workers (Schedule), and what a
-- worker does with a message (Jobs).
pub mod Schedule
pub mod Jobs
