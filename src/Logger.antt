-- ===== src/Logger.antt =====
-- internal/logger/logger.go
pub mod Ring
pub mod Rotate
pub mod Registry
pub mod Attach
