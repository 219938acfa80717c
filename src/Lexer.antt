-- ===== src/Lexer.antt =====
-- The scanner of the configuration: flex/configparser.l and src/library_src/flex.cpp, which flex made
-- of it, with include/flex.hpp and include/ConfigurationParser.hpp.
pub mod Pattern
pub mod State
pub mod Rules
pub mod Table
pub mod Scan
pub mod Product
pub mod Decimal
pub mod Syntax
pub mod Reach
pub mod Numbers
pub mod Tokens
pub mod TriggerTokens
pub mod LogTokens
pub mod Items
pub mod Series
pub mod Readers
pub mod TriggerLine
pub mod LogLine
pub mod RoundTrip
