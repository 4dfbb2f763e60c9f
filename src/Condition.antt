-- ===== src/Condition.antt =====
-- interfaces/python/src/openrois/interfaces/condition.py: the filter language of every `condition`.
-- `Syntax` has the data, `Tokens` the lexer, `Like` the LIKE patterns, `Parse` the parser and
-- `Print` the builders; the other children prove.
pub mod Syntax
pub mod Tokens
pub mod Like
pub mod Parse
pub mod Print
pub mod Literals
pub mod Lexing
pub mod RoundTrip
pub mod Matching
pub mod Patterns
pub mod Accepts
pub mod Fuel
pub mod Keywords
mod Tests
