-- ===== src/Helper.antt =====
-- The program esim-helper, which the agent runs for one operation on the card: esim-helper/src.
pub mod Address
pub mod Download
