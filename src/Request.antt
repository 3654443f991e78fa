-- ===== src/Request.antt =====
-- src/linear_fcgi_env.cc, src/linear_fcgi_env.h, src/linear_fcgi_request.cc and .h: one FastCGI
-- request.
pub mod Env
pub mod Input
pub mod Getters
pub mod Strtol
pub mod Body
pub mod Poisoned
mod Tests
