-- ===== src/Redis.antt =====
-- manyfaced/handlers/redis_handler.py
pub mod Resp
pub mod Reply
pub mod RoundTrip
pub mod Faults
