-- ===== src/Server.antt =====
-- src/linear_fcgi_server.cc and .h: the FastCGI thread.
pub mod Origin
pub mod Reply
pub mod Poll
pub mod Handlers
pub mod Routing
pub mod Sessions
pub mod Polling
pub mod Gathering
pub mod Posting
pub mod Dispatch
pub mod Invariant
pub mod Alive
pub mod Lifetime
pub mod Sound
pub mod Consistency
pub mod Reconnect
pub mod Answers
pub mod Run
pub mod QuietPoll
pub mod Http
pub mod Exchange
pub mod Upload
pub mod Losing
mod Tests
mod RunTests
mod HttpTests
