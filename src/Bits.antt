-- ===== src/Bits.antt =====
-- The bit operations of C on the native numbers: laws by digit, fields and masks.
pub mod Digit
pub mod Field
