-- ===== src/Codec/Responses/RoundTrip.antt =====
-- The decoders of codec.hpp undo its encoders, a module for each response.
pub mod Accepted
pub mod Rejected
pub mod Cancelled
pub mod Modified
pub mod Trade
