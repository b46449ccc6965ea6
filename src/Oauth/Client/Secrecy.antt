-- ===== src/Oauth/Client/Secrecy.antt =====
-- oauth/client.go: when the caches and the endpoints of two clients look alike to the log.
mod Reading
pub mod Logs
use go_library.Prelude.{
  ◌≡◌, refl, sym, ap, ◌∙◌, String, Bool, true, false, ◌||◌, Dict, Option, none, some, List, take,
  ltb, leb, pos, ◌==◌, string_eq, Bool-cases, inl, inr, if◌then◌else◌,
}
use go_library.Runtime.{Runtime}
use go_library.Logger.State.{World, now}
use go_library.Logger.Context.{Context}
use go_library.Oauth.Codec.{Bytes, Codec, Duration, Time, zero_time, int_eq}
use go_library.Oauth.Token.{Token, Field, parse_token_response, decode_map}
use go_library.Oauth.Token.Entry.{marshal_cache, unmarshal_cache}
use go_library.Oauth.Errors.{parse_auth_error}
use go_library.Oauth.Setup.{Config, Client}
use go_library.Oauth.Backend.{
  Got, hit, miss, failed, TokenCache, Request, Reply, no_response, unreadable, response, Endpoint,
}
use go_library.Oauth.Client.{
  max_body_bytes, FetchError, Fetched, token_ok, token_error, token_valid, token_request, Sys, pure,
  post, cache_get, cache_set, present, cache_ttl, base_attrs, cache_attrs, parse_fields,
  parse_reply, read_reply, exchange, fetch,
}
use go_library.Oauth.Client.Methods.{
  use_entry, use_reading, read_cache, report_write, write_cache, settle, fetch_and_cache,
  begin_call, found_or_fetch, token, refresh,
}
use go_library.Oauth.Client.Silence.{if-IsSilent, read_cache-IsSilent}

-- What a client sends to the endpoint to show who it is.
pub record Credentials : Type 0 where
  pub client_id : String
  pub client_secret : String
  pub username : String
  pub password : String
  pub security_token : String
  pub scopes : List String
  pub extra_params : Dict String

-- The client with other credentials.
abbrev pub with_credentials : Credentials → Client → Client
with_credentials k c = record c {
  cfg = record c.cfg {
    client_id = k.client_id;
    client_secret = k.client_secret;
    username = k.username;
    password = k.password;
    security_token = k.security_token;
    scopes = k.scopes;
    extra_params = k.extra_params;
  };
}

-- Two tokens that expire at the same time, for the same instance.
abbrev pub SameLife : Token → Token → Type 0
SameLife t t' = (t.expires_at ≡ t'.expires_at) × (t.instance_url ≡ t'.instance_url)

-- Two tokens that expire at the same time, and both have an access token, or neither.
abbrev pub SameUse : Token → Token → Type 0
SameUse t t' = (t.expires_at ≡ t'.expires_at) × ((t.access_token == "") ≡ (t'.access_token == ""))

-- Two fetched tokens of one life, or the same error.
abbrev pub AlikeFetched : Fetched → Fetched → Type 0
AlikeFetched (token_ok t) (token_ok t') = SameLife t t'
AlikeFetched (token_error e) (token_error e') = e ≡ e'
AlikeFetched _ _ = ⊥

module _ (cx : Codec) where
  -- Two texts of the cache that decode to tokens of one use, or that fail to decode with one error.
  abbrev pub AlikeEntries : Bytes → Bytes → Option Token → Option Token → Type 0
  AlikeEntries b b' none none = cx.decode_failure b ≡ cx.decode_failure b'
  AlikeEntries b b' (some t) (some t') = SameUse t t'
  AlikeEntries b b' _ _ = ⊥

  abbrev pub AlikeGot : Got → Got → Type 0
  AlikeGot (hit b) (hit b') = AlikeEntries b b' (unmarshal_cache cx b) (unmarshal_cache cx b')
  AlikeGot (miss e) (miss e') = Unit {0}
  AlikeGot (failed e) (failed e') = e ≡ e'
  AlikeGot _ _ = ⊥

  -- Two bodies of successful responses that decode to tokens of one life whenever they arrive, or that
  -- fail to decode with one error.
  abbrev pub AlikeFields :
      Duration → Bytes → Bytes → Option (Dict Field) → Option (Dict Field) → Type 0
  AlikeFields ttl b b' none none = cx.decode_failure b ≡ cx.decode_failure b'
  AlikeFields ttl b b' (some raw) (some raw') =
      (t : Time) → SameLife (parse_token_response cx raw t ttl) (parse_token_response cx raw' t ttl)
  AlikeFields ttl b b' _ _ = ⊥

  -- Two replies with one transport error; or with one status, and then with one `AuthError` if it is no
  -- success, and else with such bodies.
  abbrev pub AlikeReply : Duration → Reply → Reply → Type 0
  AlikeReply ttl (no_response e) (no_response e') = e ≡ e'
  AlikeReply ttl (unreadable e) (unreadable e') = e ≡ e'
  AlikeReply ttl (response status body) (response status' body') =
      let b = take max_body_bytes body in
      let b' = take max_body_bytes body' in
      (status ≡ status')
      × ((ltb status 200 || leb 300 status) ≡ true
          → parse_auth_error cx status b ≡ parse_auth_error cx status b')
      × ((ltb status 200 || leb 300 status) ≡ false
          → AlikeFields ttl b b' (decode_map cx b) (decode_map cx b'))
  AlikeReply ttl _ _ = ⊥

-- Two states with one world.
abbrev pub SameWorld : {tc tc' : TokenCache} {ep ep' : Endpoint} → Sys tc ep → Sys tc' ep' → Type 0
SameWorld s s' = s.world ≡ s'.world

-- Two results of looking up a token, of which both or neither is one.
abbrev pub BothFound : Option Token → Option Token → Type 0
BothFound none none = Unit {0}
BothFound (some t) (some t') = Unit {0}
BothFound _ _ = ⊥

module _ (cx : Codec) (tc tc' : TokenCache) (ep ep' : Endpoint) (c : Client) (k : Credentials) where
  -- The token requests of the two clients are answered alike.
  abbrev pub AlikeServed : ep.Server → ep'.Server → Type 0
  AlikeServed sv sv' =
      (ep.bad_url c.cfg.token_url ≡ ep'.bad_url c.cfg.token_url)
      × AlikeReply cx c.cfg.default_ttl (ep.post (token_request c.cfg) sv).0
          (ep'.post (token_request (with_credentials k c).cfg) sv').0

module _ (tc tc' : TokenCache) (c : Client) where
  -- The caches take writes under the key alike.
  abbrev pub AlikeWrites : Type 0
  AlikeWrites =
      (v v' : Bytes) (ttl : Duration) (st : tc.Store) (st' : tc'.Store)
      → (tc.set c.cfg.cache_key v ttl st).0 ≡ (tc'.set c.cfg.cache_key v' ttl st').0
