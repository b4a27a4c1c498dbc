-- ===== src/Callback.antt =====
-- src/loopback_listener.cpp: the OAuth callback, from its bytes to its result, and the listener
-- that waits for it once.
pub mod Types
pub mod Decode
pub mod Request
pub mod Listener
mod Examples
