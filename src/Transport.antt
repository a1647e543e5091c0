-- ===== src/Transport.antt =====
-- internal/transport/httpapi: what the handlers do with a request once it is decoded.
pub mod Responses
pub mod Handlers
pub mod Searches
pub mod Activation
