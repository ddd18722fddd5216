-- ===== src/TextParser.antt =====
-- fma-common/text_parser.h, namespace `TextParserUtils`. A buffer `[b, e)` is a list of bytes; a
-- parser returns the number of bytes that it consumed, 0 for failure, and its out-parameter.
-- `char` is signed: a byte from 128 on is a negative `char`.
pub mod Chars
pub mod Lines
pub mod Numbers
pub mod Fields
pub mod Tuple
mod Tests
