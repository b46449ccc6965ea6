-- ===== src/Oauth/Backend.antt =====
-- oauth/cache.go, oauth/redis/cache.go and net/http: what a client talks to.
mod Types
pub mod Redis
pub use Types.{
  Got, hit, miss, failed, TokenCache, IsLawfulCache, Request, Reply, no_response, unreadable,
  response, Endpoint,
}
