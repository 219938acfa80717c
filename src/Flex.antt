-- ===== src/Flex.antt =====
-- The tables and the matching loop that flex generated, src/library_src/flex.cpp.
pub mod Numbers
pub mod Accepting
pub mod States
pub mod Next
pub mod Check
pub mod Machine
pub mod Buffer
pub mod Cases
pub mod Residual
pub mod Reached
pub mod Views
pub mod Agreement
pub mod Greedy
pub mod Choice
pub mod Classes
pub mod Rows
pub mod Verdicts
pub mod Simulation
pub mod Filling
pub mod Named
pub mod Tokens
pub mod Stream
pub mod RoundTrip
