-- ===== src/Virtualization.antt =====
-- `namespace virtualization` (Guypervisor/virtualization.cpp), a module for each group of its
-- functions.
pub mod Framed
pub mod Written
pub mod Access
pub mod Enter
pub mod Dump
pub mod Write
pub mod Populate
pub mod Guest
