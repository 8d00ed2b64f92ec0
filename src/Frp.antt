-- ===== src/Frp.antt =====
-- internal/frp: the engine that runs named frps and frpc instances in one process.
pub mod Instance
pub mod StartError
pub mod Tunnel
pub mod Kernel
pub mod Build
pub mod Convert
pub mod Engine
pub mod Status
pub mod Export
