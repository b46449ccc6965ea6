-- ===== src/Oauth.antt =====
-- The oauth package (oauth/*.go) and its cache adapter (oauth/redis/cache.go).
pub mod Codec
pub mod Token
pub mod Errors
pub mod Setup
pub mod Backend
pub mod Client
