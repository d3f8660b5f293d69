-- ===== src/SettingsCommand.antt =====
-- src/tools/time-settings-cli.c: the command that shows and changes the temporal policy, on Linux.
pub mod Options
pub mod Agreement
pub mod Main
pub mod RollingBack
pub mod Publishing
pub mod Reports
pub mod Reporting
pub mod Locking
