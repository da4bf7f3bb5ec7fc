-- ===== src/Daemon.antt =====
-- apps/woof_d/src: the capture daemon.
pub mod Gate
