-- ===== src/Oauth/Client.antt =====
-- oauth/client.go: the methods of a client, over the world of the logger, the state of the cache, that
-- of the token endpoint, and the requests that were sent.
pub mod Methods
pub mod Form
pub mod Freshness
pub mod Silence
pub mod Fetching
pub mod Serving
pub mod Reading
pub mod Caching
pub mod Sharing
pub mod Secrecy
use go_library.Prelude.{
  ℕ, ◌+◌, String, ◌<>◌, Bool, true, false, ◌&&◌, ◌||◌, Option, none, some, List, [], ◌∷◌, ◌++◌, ℤ,
  pos, Dict, insert, take, ltb, leb, ◌+ℤ◌, ltb_ℤ, ◌==◌, string_eq, if◌then◌else◌,
}
use go_library.Runtime.{Runtime}
use go_library.GoText.{join}
use go_library.Logger.Value.{Value, text, scalar, Attr, int, boolean, millis, seconds, time}
use go_library.Logger.State.{World, now}
use go_library.Logger.Context.{Context, ensure_request_id, lifecycle_from}
use go_library.Logger.Handler.{debug, info, warn, error, err_attr}
use go_library.Logger.Lifecycle.{stage, dur_ms}
use go_library.Oauth.Codec.{Bytes, Codec, Time, Duration, zero_time, int_eq, until, sub_duration}
use go_library.Oauth.Token.{Token, Field, parse_token_response, decode_map}
use go_library.Oauth.Token.Entry.{marshal_cache, unmarshal_cache}
use go_library.Oauth.Errors.{AuthError, error_text, parse_auth_error}
use go_library.Oauth.Setup.{Config, Client, grant_salesforce_password}
use go_library.Oauth.Backend.{
  Got, hit, miss, failed, TokenCache, Request, Reply, no_response, unreadable, response, Endpoint,
}

abbrev pub max_body_bytes : ℕ
max_body_bytes = 1048576

-- The errors of `fetch`, with the text of what they wrap.
pub data FetchError : Type 0 where
  building sending reading decoding : String → FetchError
  auth : AuthError → FetchError

pub data Fetched : Type 0 where
  token_ok : Token → Fetched
  token_error : FetchError → Fetched

-- `tokenValid`, at the given present and margin.
unfoldable pub token_valid : Duration → Time → Token → Bool
token_valid margin now tok =
    if tok.access_token == ""
    then false
    else if tok.expires_at == zero_time
    then true
    else ltb_ℤ (now +ℤ margin) tok.expires_at

-- `cacheTTL`, at the given present.
unfoldable pub cache_ttl : Config → Time → Token → Duration
cache_ttl cfg now tok =
    if tok.expires_at == zero_time
    then cfg.default_ttl
    else (let ttl = sub_duration (until now tok.expires_at) cfg.expiry_margin in
        if ltb_ℤ (pos 0) ttl then ttl else pos 1000000000)

-- The fields of a grant.
unfoldable pub grant_form : Config → Dict String → Dict String
grant_form cfg form =
    if cfg.grant_type == grant_salesforce_password
    then insert "password" (cfg.password <> cfg.security_token)
        (insert "username" cfg.username form)
    else elim cfg.scopes [ [] ↦ form | s ∷ ss ↦ insert "scope" (join " " (s ∷ ss)) form ]

-- The loop over `ExtraParams`, in the order of a traversal.
unfoldable pub add_params : Dict String → Dict String → Dict String
add_params [] form = form
add_params ((k, v) ∷ ps) form = add_params ps (insert k v form)

unfoldable pub base_form : Config → Dict String
base_form cfg =
    insert "client_secret" cfg.client_secret
      (insert "client_id" cfg.client_id (insert "grant_type" cfg.grant_type []))

-- The form of the token request.
unfoldable pub token_form : Config → Dict String
unfolding grant_form add_params base_form
token_form cfg = add_params cfg.extra_params (grant_form cfg (base_form cfg))

unfoldable pub token_request : Config → Request
token_request cfg = record {
  url = cfg.token_url;
  form = token_form cfg;
  content_type = "application/x-www-form-urlencoded";
  accept = "application/json";
}

-- `baseAttrs` and `cacheAttrs`
unfoldable pub base_attrs : Config → List Attr
base_attrs cfg =
    ("oauth.grantType", text cfg.grant_type) ∷ ("oauth.tokenUrl", text cfg.token_url) ∷ []

unfoldable pub cache_attrs : Config → List Attr
unfolding base_attrs
cache_attrs cfg = base_attrs cfg ++ ("oauth.cacheKey", text cfg.cache_key) ∷ []

-- What a client acts on.
pub record Sys (tc : TokenCache) (ep : Endpoint) : Type 0 where
  pub world : World
  pub store : tc.Store
  pub server : ep.Server
  pub sent : List Request

abbrev pub M : TokenCache → Endpoint → Type 0 → Type 0
M tc ep A = Sys tc ep → A × Sys tc ep

module _ {tc : TokenCache} {ep : Endpoint} where
  infixl 5 ◌>>=◌ ◌>>◌
  abbrev pub ◌>>=◌ : {A B : Type 0} → M tc ep A → (A → M tc ep B) → M tc ep B
  ◌>>=◌ m f s = let (a, s') = m s in f a s'

  abbrev pub ◌>>◌ : {A B : Type 0} → M tc ep A → M tc ep B → M tc ep B
  ◌>>◌ m k s = let (a, s') = m s in k s'

  abbrev pub pure : {A : Type 0} → A → M tc ep A
  pure a s = (a, s)

  -- An action of the logger package.
  abbrev pub lift : {A : Type 0} → (World → A × World) → M tc ep A
  lift m s = let (a, w) = m s.world in (a, record s { world = w })

  -- `time.Now`
  abbrev pub present : Runtime → M tc ep Time
  present rt s = let (t, w) = now rt s.world in (pos t, record s { world = w })

  abbrev pub cache_get : String → M tc ep Got
  cache_get key s = let (g, st) = tc.get key s.store in (g, record s { store = st })

  abbrev pub cache_set : String → Bytes → Duration → M tc ep (Option String)
  cache_set key value ttl s =
      let (e, st) = tc.set key value ttl s.store in (e, record s { store = st })

  abbrev pub cache_delete : String → M tc ep (Option String)
  cache_delete key s = let (e, st) = tc.delete key s.store in (e, record s { store = st })

  abbrev pub post : Request → M tc ep Reply
  post req s =
      let (r, sv) = ep.post req s.server in (r, record s { server = sv; sent = s.sent ++ req ∷ [] })

module _ (rt : Runtime) (cx : Codec) (tc : TokenCache) (ep : Endpoint) where
  -- What a decoded response gives, or one that does not decode.
  unfoldable pub parse_fields : Config → Bytes → Option (Dict Field) → M tc ep Fetched
  parse_fields cfg body none =
      pure (token_error (decoding ("oauth: decoding token response: " <> cx.decode_failure body)))
  parse_fields cfg body (some raw) = do
    t ← present rt
    pure (token_ok (parse_token_response cx raw t cfg.default_ttl))

  -- The parse of a response.
  unfoldable pub parse_reply : Config → ℕ → Bytes → M tc ep Fetched
  unfolding parse_fields
  parse_reply cfg status body =
      if ltb status 200 || leb 300 status
      then pure (token_error (auth (parse_auth_error cx status body)))
      else parse_fields cfg body (decode_map cx body)

  unfoldable pub read_reply : Config → Reply → M tc ep Fetched
  unfolding parse_reply
  read_reply cfg (no_response e) =
      pure (token_error (sending ("oauth: token request failed: " <> e)))
  read_reply cfg (unreadable e) =
      pure (token_error (reading ("oauth: reading token response: " <> e)))
  read_reply cfg (response status body) = parse_reply cfg status (take max_body_bytes body)

  -- The exchange with the endpoint, unless the request could not be built.
  unfoldable pub exchange : Config → Option String → M tc ep Fetched
  unfolding token_request read_reply
  exchange cfg (some e) = pure (token_error (building ("oauth: building token request: " <> e)))
  exchange cfg none = do r ← post (token_request cfg); read_reply cfg r

  -- `fetch`
  unfoldable pub fetch : Config → M tc ep Fetched
  unfolding exchange
  fetch cfg = exchange cfg (ep.bad_url cfg.token_url)
