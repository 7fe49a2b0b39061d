-- ===== src/Transport.antt =====
-- The HTTP interface (internal/transport/httpapi) and the authentication in front of it
-- (internal/infrastructure/auth).
pub mod Auth
pub mod Http
pub mod Wallets
pub mod Routes
pub mod Verified
pub mod Isolation
