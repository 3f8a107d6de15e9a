-- ===== src/Util.antt =====
-- The parts of util/ that are modelled.
pub mod Strings
