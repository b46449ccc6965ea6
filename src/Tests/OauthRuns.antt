-- ===== src/Tests/OauthRuns.antt =====
-- oauth/*.go: runs, and the theorems at concrete data.
use go_library.Prelude.{
  ℕ, ◌+◌, ◌≡◌, refl, ap, ◌∙◌, arith, String, true, Option, none, some, [], ◌∷◌, pos, ◌+ℤ◌, ◌-ℤ◌,
  ◌<ℤ◌, ◌≤ℤ◌, Dict, lookup, insert, lookup-insert, ◌==◌, string_eq, if◌then◌else◌, Bool-cases, inl,
  inr,
}
use go_library.Logger.State.{Logger, sink, json}
use go_library.Oauth.Codec.{Bytes, string, number, unix_seconds, zero_time}
use go_library.Oauth.Token.{Token, valid}
use go_library.Oauth.Token.Entry.{marshal_cache, unmarshal_cache}
use go_library.Oauth.Token.RoundTrip.{cached_view, unmarshal_cache-marshal_cache}
use go_library.Oauth.Setup.{Config, Client, custom_client, grant_client_credentials}
use go_library.Oauth.Setup.Ready.{IsComplete}
use go_library.Oauth.Backend.{TokenCache, Endpoint, response}
use go_library.Oauth.Backend.Redis.{
  UniversalClient, IsLawfulClient, Reading, bytes, nil, redis_cache,
}
use go_library.Oauth.Client.{token_valid, cache_ttl, grant_form, base_form, token_form}
use go_library.Oauth.Client.Form.{IsMap, or_else, lookup-token_form}
use go_library.Oauth.Client.Freshness.{token_valid-valid, IsLongLived, cache_ttl-cached_view}
use go_library.Tests.Data.{orders}
use go_library.Tests.PlainCodec.{plain, plain-IsLawfulCodec}

-- A Redis that never fails and forgets nothing.
abbrev remove : String → Dict Bytes → Dict Bytes
remove k [] = []
remove k ((j, v) ∷ m) = if j == k then remove k m else (j, v) ∷ remove k m

abbrev reading_of : Option Bytes → Reading
reading_of none = nil
reading_of (some b) = bytes b

abbrev pub dict_client : UniversalClient
dict_client = record {
  Db = Dict Bytes;
  get = λ key d. (reading_of (lookup key d), d);
  set = λ key value ttl d. (none, insert key value d);
  del = λ key d. (none, remove key d);
}

lookup-remove : (k : String) (d : Dict Bytes) → lookup k (remove k d) ≡ none
unfolding lookup
lookup-remove k [] = refl
lookup-remove k ((j, v) ∷ m) = elim (Bool-cases (j == k)) [
  | inl same ↦ rw same (lookup-remove k m)
  | inr other ↦ rw (other, other) (lookup-remove k m)
]

string_same : (k : String) → (k == k) ≡ true
string_same k = (string_eq.agree_iff k k).1 refl

pub dict_client-IsLawfulClient : IsLawfulClient dict_client
dict_client-IsLawfulClient = record {
  get-set = λ key value ttl d ok. ap reading_of (
      lookup-insert key key value d
      ∙ ap (λ b. if b then some value else lookup key d) (string_same key));
  get-del = λ key d ok. ap reading_of (lookup-remove key d);
}

abbrev pub store : TokenCache
store = redis_cache dict_client

-- An endpoint that counts its replies, each of which grants a token for an hour.
abbrev pub granted : Bytes
granted = plain.encode (("access_token", string "t1") ∷ ("expires_in", number "3600") ∷ [])

abbrev pub endpoint : Endpoint
endpoint = record {
  Server = ℕ;
  bad_url = λ url. if url == "" then some "empty url" else none;
  post = λ req n. (response 200 granted, n + 1);
}

abbrev pub cfg : Config
cfg = record {
  grant_type = grant_client_credentials;
  token_url = "https://login.example.com/token";
  client_id = "id";
  client_secret = "secret";
  username = "";
  password = "";
  security_token = "";
  scopes = "api" ∷ "refresh" ∷ [];
  extra_params = ("audience", "orders") ∷ ("scope", "all") ∷ [];
  http_client = custom_client;
  has_cache = true;
  cache_read = true;
  cache_write = true;
  cache_key = "k";
  expiry_margin = pos 60000000000;
  default_ttl = pos 900000000000;
}

cfg-IsComplete : IsComplete cfg
cfg-IsComplete = record {
  url = λ e. cc e;
  id = λ e. cc e;
  secret = λ e. cc e;
  user = λ e. cc e;
  cache = λ e. refl;
}

lookup-token_form_example :
    lookup "scope" (token_form cfg)
    ≡ or_else (some "all") (lookup "scope" (grant_form cfg (base_form cfg)))
unfolding lookup IsMap
lookup-token_form_example = lookup-token_form cfg "scope" (refl, (refl, tt))

abbrev pub held : Token
held = record {
  access_token = "t0";
  token_type = "Bearer";
  expires_at = pos 3661000000005;
  scope = "";
  instance_url = "https://eu.example.com";
  issued_at = zero_time;
  raw = [];
}

unmarshal_cache-marshal_cache_example :
    unmarshal_cache plain (marshal_cache plain held) ≡ some (cached_view held)
unfolding unix_seconds
unmarshal_cache-marshal_cache_example =
    unmarshal_cache-marshal_cache plain plain-IsLawfulCodec held (omega arith, omega arith)

token_valid-valid_example : valid (pos 65000000000) (some held) ≡ true
unfolding token_valid ◌+ℤ◌
token_valid-valid_example =
    token_valid-valid (pos 60000000000) (pos 10000000000) (pos 65000000000) held refl (omega arith)

held-IsLongLived : IsLongLived cfg (pos 10000000000) held
unfolding ◌+ℤ◌ ◌-ℤ◌
held-IsLongLived = record {
  expires = λ e. cc e;
  in_range = (omega arith, omega arith);
  margin = omega arith;
  exceeds = omega arith;
}

cache_ttl-cached_view_example :
    let end = pos 10000000000 +ℤ cache_ttl cfg (pos 10000000000) held in
    (token_valid (pos 60000000000) (pos 3600000000000) (cached_view held) ≡ true
      → pos 3600000000000 <ℤ end)
    × (pos 3600000000000 +ℤ pos 1000000000 ≤ℤ end
        → token_valid (pos 60000000000) (pos 3600000000000) (cached_view held) ≡ true)
cache_ttl-cached_view_example =
    cache_ttl-cached_view cfg (pos 10000000000) held held-IsLongLived (λ e. cc e) (omega arith)
      (pos 3600000000000)

abbrev pub base : Logger
base = record { handler = sink json 0 []; level = 0; cfg = orders }

abbrev pub client_of : Config → Client
client_of conf = record { cfg = conf; base = base }
