-- ===== src/Oauth/Setup.antt =====
-- oauth/oauth.go and oauth/cache.go: configurations, `New`, and the derived cache key.
pub mod Ready
pub mod Keys
use Prim.Native.String
use go_library.Prelude.{
  ℕ, zero, suc, String, ◌<>◌, Bool, true, not, ◌&&◌, ◌||◌, Option, none, some, List, ℤ, pos, Dict,
  ◌==◌, string_eq, if◌then◌else◌,
}
use go_library.RequestId.{hex}
use go_library.Logger.State.{Logger}
use go_library.Oauth.Codec.{Codec, Duration, int_eq}

-- The values of `GrantType`.
abbrev pub grant_client_credentials : String
grant_client_credentials = "client_credentials"

abbrev pub grant_salesforce_password : String
grant_salesforce_password = "password"

abbrev pub default_timeout : Duration
default_timeout = pos 10000000000

abbrev pub default_expiry_margin : Duration
default_expiry_margin = pos 60000000000

abbrev pub default_ttl : Duration
default_ttl = pos 900000000000

-- The HTTP client of a configuration: nil, the one that `New` makes, or one of the caller.
pub data HttpClient : Type 0 where
  nil_client : HttpClient
  with_timeout : Duration → HttpClient
  custom_client : HttpClient

-- `Config`; `has_cache` is whether `Cache` is not nil.
pub record Config : Type 0 where
  pub grant_type : String
  pub token_url : String
  pub client_id : String
  pub client_secret : String
  pub username : String
  pub password : String
  pub security_token : String
  pub scopes : List String
  pub extra_params : Dict String
  pub http_client : HttpClient
  pub has_cache : Bool
  pub cache_read : Bool
  pub cache_write : Bool
  pub cache_key : String
  pub expiry_margin : Duration
  pub default_ttl : Duration

-- `Client`
pub record Client : Type 0 where
  pub cfg : Config
  pub base : Logger

pub data NewResult : Type 0 where
  client : Client → NewResult
  refused : String → NewResult

-- `s[:n]` of an ASCII text.
abbrev take_text : ℕ → String → String
take_text zero s = ""
take_text (suc n) String.[] = ""
take_text (suc n) (String.◌∷◌ c s) = String.◌∷◌ c (take_text n s)

abbrev host_of : Option String → String
host_of none = "unknown"
host_of (some host) = if host == "" then "unknown" else host

-- `defaultCacheKey`
unfoldable pub default_cache_key : Codec → Config → String
default_cache_key cx cfg =
    let sum = cx.sha256 (
      cfg.token_url
      <> ("|" <> (cfg.grant_type <> ("|" <> (cfg.client_id <> ("|" <> cfg.username)))))) in
    "oauth:token:" <> (host_of (cx.url_host cfg.token_url) <> (":" <> take_text 16 (hex sum)))

abbrev default_client : HttpClient → HttpClient
default_client nil_client = with_timeout default_timeout
default_client c = c

-- The grant type after its default.
unfoldable pub with_grant : Config → Config
with_grant cfg = record cfg {
  grant_type = if cfg.grant_type == "" then grant_client_credentials else cfg.grant_type;
}

-- The defaults behind the checks.
unfoldable pub with_defaults : Codec → Config → Config
with_defaults cx cfg =
    let cfg1 : Config = record cfg {
      http_client = default_client cfg.http_client;
      expiry_margin =
          if cfg.expiry_margin == pos 0 then default_expiry_margin else cfg.expiry_margin;
      default_ttl = if cfg.default_ttl == pos 0 then default_ttl else cfg.default_ttl;
    } in
    record cfg1 {
      cache_key = if cfg1.cache_key == "" then default_cache_key cx cfg1 else cfg1.cache_key;
    }

-- The checks that follow the default of the grant type, and the client.
unfoldable pub new_checked : Codec → Logger → Config → NewResult
new_checked cx base cfg =
    if cfg.grant_type == grant_salesforce_password && (cfg.username == "" || cfg.password == "")
    then refused "oauth: Username and Password are required for the Salesforce password grant"
    else if (cfg.cache_read || cfg.cache_write) && not cfg.has_cache
    then refused "oauth: Cache is required when CacheRead or CacheWrite is set"
    else client (record { cfg = with_defaults cx cfg; base = base })

-- `New`
unfoldable pub new : Codec → Logger → Config → NewResult
unfolding new_checked
new cx base cfg =
    if cfg.token_url == ""
    then refused "oauth: TokenURL is required"
    else if cfg.client_id == ""
    then refused "oauth: ClientID is required"
    else if cfg.client_secret == ""
    then refused "oauth: ClientSecret is required"
    else new_checked cx base (with_grant cfg)

-- `(*Client).CacheKey`
unfoldable pub cache_key : Client → String
cache_key c = c.cfg.cache_key
