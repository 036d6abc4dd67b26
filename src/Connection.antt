-- ===== src/Connection.antt =====
-- cassandra/connection.py
pub mod Streams
pub mod Frames
