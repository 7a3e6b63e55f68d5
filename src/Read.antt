-- ===== src/Read.antt =====
-- Serving a byte range of a recording: the range header, the local copy and the remote object.
pub mod Range
pub mod Pieces
pub mod Body
pub mod Local
pub mod Remote
pub mod Examples
