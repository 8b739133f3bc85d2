-- ===== src/Codec.antt =====
-- core/order_entry/include/lltg/order_entry/codec.hpp, in the order of the file: the little-endian
-- helpers, the header, the requests and the responses. A `std::span<std::byte>` is a list of bytes;
-- a function that writes to a span returns the new list, and `none` is an access out of range.
pub mod Words
pub mod Header
pub mod Frames
pub mod Requests
pub mod Responses
mod Tests
