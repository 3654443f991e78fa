-- ===== src/Response.antt =====
-- src/linear_fcgi_response.cc: the text of a response.
pub mod Codes
pub mod Decimal
pub mod Text
pub mod RoundTrip
pub mod Sending
mod Tests
