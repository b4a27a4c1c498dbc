-- ===== src/Native.antt =====
-- src/native_runtime.cpp and src/libcurl_transport.cpp: `Values` reads JSON values, `Columns` the
-- columns of a response, `Codec` the response, and `Transport` checks a request and bounds what a
-- response may bring. SteadyRuntime only asks the operating system.
pub mod Values
pub mod Columns
pub mod Codec
pub mod Transport
mod Examples
