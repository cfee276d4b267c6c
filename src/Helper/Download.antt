-- ===== src/Helper/Download.antt =====
-- esim-helper/src/download.rs: one download, from the card's challenge to the installed profile. The calls of
-- the card and of the server are the records Card and Server, which Helper.Download.Parties fills with
-- those of the crate euicc; Control has the control lines, the clock and the progress lines.
pub mod Interface
pub mod Stops
pub mod Steps
pub mod Procedure
pub mod ActivationCode
pub mod Logged
pub mod Quiet
pub mod Early
pub mod Bounded
pub mod Loops
pub mod Total
pub mod Termination
pub mod Ended
pub mod Endings
pub mod Parties
mod Tests
