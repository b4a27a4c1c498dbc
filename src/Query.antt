-- ===== src/Query.antt =====
-- src/query_api.cpp: one query's session against the Query API, its cursor, and the client.
pub mod Types
pub mod Checks
pub mod Session
pub mod Cursor
pub mod Client
pub mod Sound
pub mod Frame
pub mod Reading
pub mod Schema
pub mod Stop
pub mod Counts
mod Examples
