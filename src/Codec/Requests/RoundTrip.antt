-- ===== src/Codec/Requests/RoundTrip.antt =====
-- The decoders of codec.hpp undo its encoders, a module for each request.
pub mod NewOrder
pub mod CancelOrder
pub mod ModifyOrder
