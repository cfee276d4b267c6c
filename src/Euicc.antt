-- ===== src/Euicc.antt =====
-- The crate euicc: the card protocol of SGP.22, as it is spoken to the card.
pub mod Der
pub mod Hex
pub mod Session
pub mod Es10c
pub mod Es10b
pub mod Es8p
pub mod Info2
pub mod B64
pub mod Rsp
pub mod Download
pub mod Es9p
