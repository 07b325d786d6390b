-- ===== src/Config.antt =====
-- The configuration: Logging is config/zerolog.go, and Viper is config/viper.go.
pub mod Logging
pub mod Viper
pub mod Running
