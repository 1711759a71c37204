-- ===== src/Rules/Build.antt =====
-- How rules are built from the options of a message: cel_rules.h, field_rules.h, field_rules.cc and
-- message_rules.cc of buf/validate/internal.
pub mod Cel
pub mod Field
pub mod Message
