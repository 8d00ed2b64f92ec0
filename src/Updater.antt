-- ===== src/Updater.antt =====
-- internal/updater: which version is newer, and whether a downloaded program may be installed.
pub mod Versions
pub mod Binary
pub mod Extract
