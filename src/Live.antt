-- ===== src/Live.antt =====
-- buffer.py: the bounded window of live segments of one camera.
pub mod Segment
pub mod Buffer
pub mod Examples
