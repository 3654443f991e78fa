-- ===== src/Client.antt =====
-- src/linear_fcgi_client.cc and .h: one backend connection, used by the FastCGI thread (Calls) and
-- by the libuv thread (Callbacks).
pub mod State
pub mod Callbacks
pub mod Calls
pub mod Connect
pub mod Teardown
pub mod Streams
pub mod Sound
mod Tests
