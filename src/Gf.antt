-- ===== src/Gf.antt =====
-- src/gf: arithmetic in GF(2^4) and GF(2^8).
pub mod Tables
pub mod Field
pub mod Gf2_4
pub mod Gf2_8
pub mod Simd
pub mod Action
pub mod Minor
mod LogExp
mod Cyclic
pub mod Laws
pub mod Peasant
