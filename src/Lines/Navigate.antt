-- ===== src/Lines/Navigate.antt =====
-- Moving over the lines (src/buffer.cc, buffer.inl.hh): the offset of a coordinate is the number of
-- bytes before it, and each movement is arithmetic on offsets.
pub mod Offset
pub mod Advance
pub mod Distance
pub mod Slice
