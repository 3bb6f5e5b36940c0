-- ===== src/Bits.antt =====
-- The laws of `&` and `|` at variables: each bit of a result, masks of low and of high bits.
mod Step
pub mod Digit
pub mod Mask
pub mod Zero
pub mod Slice
