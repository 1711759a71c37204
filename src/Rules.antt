-- ===== src/Rules.antt =====
-- The rules of buf/validate/internal: rules.h, rules.cc, validation_rules.h, cel_validation_rules.cc.
pub mod Path
pub mod Context
pub mod Cel
pub mod Field
pub mod Options
pub mod Repeated
pub mod Map
pub mod Oneof
pub mod Kinds
pub mod Build
pub mod ProtoField
pub mod Lockstep
