-- ===== src/Tests.antt =====
-- The properties at concrete inputs.
mod Gf
mod Wire
mod Codec
mod Policy
mod Config
mod Ids
mod Matrix
mod Encoder
