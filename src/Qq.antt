-- ===== src/Qq.antt =====
-- internal/qqbot: the access to the QQ platform.
pub mod Tokens
