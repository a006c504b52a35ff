-- ===== src/Protocol.antt =====
-- manyfaced/common/protocol.py
pub mod Regex
pub mod Signatures
pub mod Detection
pub mod Mongo
pub mod Info
