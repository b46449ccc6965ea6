-- ===== src/Oauth/Backend/Types.antt =====
-- oauth/cache.go, oauth/redis/cache.go and net/http: what a client talks to. The states of the cache
-- and of the token endpoint are parameters.
use go_library.Prelude.{ℕ, ◌≡◌, String, Option, none, Dict}
use go_library.Oauth.Codec.{Bytes, Duration}

-- The result of `TokenCache.Get`; a miss is `ErrCacheMiss`, or an error that wraps it.
pub data Got : Type 0 where
  hit : Bytes → Got
  miss : String → Got
  failed : String → Got

-- `TokenCache`. A write that succeeds returns none, and the text of its error otherwise.
pub record TokenCache : Type 1 where
  pub Store : Type 0
  pub get : String → Store → Got × Store
  pub set : String → Bytes → Duration → Store → Option String × Store
  pub delete : String → Store → Option String × Store

-- What the interface asks of an implementation: an entry that was stored is there to be read, and
-- an entry that was deleted is a miss.
pub record IsLawfulCache (tc : TokenCache) : Type 0 where
  pub get-set :
      (key : String) (value : Bytes) (ttl : Duration) (s : tc.Store)
      → (tc.set key value ttl s).0 ≡ none
      → (tc.get key (tc.set key value ttl s).1).0 ≡ hit value
  pub get-delete :
      (key : String) (s : tc.Store)
      → (tc.delete key s).0 ≡ none
      → (e : String) × ((tc.get key (tc.delete key s).1).0 ≡ miss e)

-- The token request.
pub record Request : Type 0 where
  pub url : String
  pub form : Dict String
  pub content_type : String
  pub accept : String

-- What the HTTP client gives back: a transport error, a response whose body cannot be read, or a
-- response.
pub data Reply : Type 0 where
  no_response : String → Reply
  unreadable : String → Reply
  response : ℕ → Bytes → Reply

-- The HTTP client and the endpoint behind it; `bad_url` is the error of `http.NewRequest`.
pub record Endpoint : Type 1 where
  pub Server : Type 0
  pub bad_url : String → Option String
  pub post : Request → Server → Reply × Server
