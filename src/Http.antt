-- ===== src/Http.antt =====
-- The HTTP server of reactor_net: the request parser, the response and the handler of messages.
pub mod Url
pub mod Request
pub mod Response
pub mod Server
pub mod Escapes
pub mod Headers
pub mod Safety
pub mod RoundTrip
pub mod Format
pub mod Serve
mod Tests
