-- ===== src/Lines/Insert.antt =====
-- Inserting into the lines (Buffer::do_insert in src/buffer.cc): the text around the position, the
-- shape of the lines, and the range that is returned.
pub mod Cut
pub mod Laws
pub mod Range
