-- ===== src/Euicc/Es9p.antt =====
-- euicc/src/es9p.rs: the exchanges with the server of an operator. Each part is a module of its own.
pub mod Json
pub mod Strings
pub mod Numbers
pub mod Parser
pub mod Termination
pub mod RoundTrip
pub mod Errors
pub mod Status
pub mod Exchange
pub mod Calls
pub mod Nonzero
pub mod Requests
pub mod Answers
pub mod Fields
mod Tests
