-- ===== src/ExtraFunc.antt =====
-- The format checks of buf/validate/internal/extra_func.cc that the CEL functions call.
pub mod Ip
pub mod Port
pub mod Host
pub mod HostAndPort
