-- ===== src/Euicc/Download.antt =====
-- euicc/src/download.rs: the card's side of a download. Each part of the file is a module of its own.
pub mod Requests
pub mod Segments
pub mod Installation
pub mod Calls
pub mod Parts
pub mod Plan
pub mod Loading
mod Tests
