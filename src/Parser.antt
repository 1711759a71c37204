-- ===== src/Parser.antt =====
-- buf/validate/internal/lib/parser_common.h: the character sequences that its templates build, the
-- digits, and the parser that works on a shrinking `string_view`.
-- A byte is a number below 256. The source compares signed chars; a byte from 128 on is negative
-- there and large here, and lies in none of the ranges on either reading.
-- A method that may fail half way returns its Boolean with the view that it leaves in `str`. A
-- method that leaves `str` alone when it fails, and has an output argument, returns an Option.
pub mod Chars
pub mod Number
pub mod State
pub mod Quad
pub use Chars.*
pub use Number.*
