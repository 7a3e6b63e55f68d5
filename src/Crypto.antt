-- ===== src/Crypto.antt =====
-- crypto.py: the chunked AES-256-GCM container of an archive.
pub mod Bytes
pub mod Header
pub mod Layout
pub mod Cipher
pub mod Stream
pub mod Contents
pub mod Examples
