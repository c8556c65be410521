-- ===== src/Buffer.antt =====
-- TBuffer and TString (libspider/Buffer.cpp, libspider/Buffer.h).
pub mod Block
pub mod Store
pub mod Text
pub mod Order
pub mod Quote
pub mod Ops
