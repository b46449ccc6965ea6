-- ===== src/Oauth/Backend/Redis.antt =====
-- oauth/redis/cache.go: a go-redis client as a `TokenCache`.
use go_library.Prelude.{◌≡◌, refl, String, Option, none}
use go_library.Oauth.Codec.{Bytes, Duration}
use go_library.Oauth.Backend.Types.{Got, hit, miss, failed, TokenCache, IsLawfulCache}

-- The result of a `GET` command: its bytes, the error `redis.Nil` for a missing key, or another error.
pub data Reading : Type 0 where
  bytes : Bytes → Reading
  nil : Reading
  failure : String → Reading

-- The three commands of a `UniversalClient` that the adapter uses.
pub record UniversalClient : Type 1 where
  pub Db : Type 0
  pub get : String → Db → Reading × Db
  pub set : String → Bytes → Duration → Db → Option String × Db
  pub del : String → Db → Option String × Db

-- What is documented of the commands.
pub record IsLawfulClient (rc : UniversalClient) : Type 0 where
  pub get-set :
      (key : String) (value : Bytes) (ttl : Duration) (d : rc.Db)
      → (rc.set key value ttl d).0 ≡ none
      → (rc.get key (rc.set key value ttl d).1).0 ≡ bytes value
  pub get-del :
      (key : String) (d : rc.Db) → (rc.del key d).0 ≡ none → (rc.get key (rc.del key d).1).0 ≡ nil

-- The text of `ErrCacheMiss`.
abbrev pub miss_text : String
miss_text = "oauth: token cache miss"

-- The translation of a read in `(*Cache).Get`.
unfoldable pub translate : Reading → Got
translate (bytes data_) = hit data_
translate nil = miss miss_text
translate (failure e) = failed e

-- `Cache`: `Get`, `Set` and `Delete`.
abbrev pub redis_cache : UniversalClient → TokenCache
redis_cache rc = record {
  Store = rc.Db;
  get = λ key d. let (r, d') = rc.get key d in (translate r, d');
  set = rc.set;
  delete = rc.del;
}

-- Over a Redis that keeps what it is given, the adapter is a token cache: it reads back what it
-- stored, and a deleted key is a miss and no failure.
pub redis_cache-IsLawfulCache :
    (rc : UniversalClient) → IsLawfulClient rc → IsLawfulCache (redis_cache rc)
unfolding translate
redis_cache-IsLawfulCache rc h = record {
  get-set = λ key value ttl d ok. rw (h.get-set key value ttl d ok) refl;
  get-delete = λ key d ok. (miss_text, rw (h.get-del key d ok) refl);
}
