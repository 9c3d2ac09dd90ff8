-- ===== src/Codec.antt =====
-- src/codec: the encoder's and the decoder's state.
pub mod Window
pub mod Buffer
pub mod Dense
pub mod Matrix
pub mod Encoder
