-- ===== src/Oauth/Client/Sharing.antt =====
-- oauth/client.go and oauth/oauth.go: the token of one client, served to another from the cache.
use go_library.Prelude.{pos, ◌≡◌, true, none}
use go_library.Runtime.{Runtime}
use go_library.Logger.Context.{Context}
use go_library.Logger.State.{Logger, now}
use go_library.Oauth.Codec.{Bytes, Codec, Duration, IsInt64, IsLawfulCodec, unix_seconds}
use go_library.Oauth.Token.{Token}
use go_library.Oauth.Token.RoundTrip.{cached_view}
use go_library.Oauth.Setup.{Config, Client, client, new}
use go_library.Oauth.Setup.Keys.{SameKey, new-SameKey}
use go_library.Oauth.Backend.{TokenCache, IsLawfulCache, Endpoint}
use go_library.Oauth.Client.{token_ok, token_valid, Sys}
use go_library.Oauth.Client.Methods.{begin_call, token, refresh}
use go_library.Oauth.Client.Caching.{token-refresh_shared}

module _ (rt : Runtime) (cx : Codec) (tc : TokenCache) (ep : Endpoint) where
  -- Two clients that `New` made of configurations that agree on the token URL, the grant type, the
  -- client id, the user name and the cache key, which may be unset, over a codec and a cache that keep their promises and where
  -- writes under the key succeed. The first writes the cache and the second reads it. After a refresh
  -- of the first that gave a token whose expiry is an int64 in seconds, `Token` of the second gives
  -- that token, as it comes back from the cache, and sends nothing, if the token that comes back is
  -- valid by its margin at that time. The secrets, scopes and extra parameters of the two may differ.
  pub new-token-refresh :
      (base base' : Logger) (cfg cfg' : Config) (c d : Client)
      → SameKey cfg cfg'
      → new cx base cfg ≡ client c
      → new cx base' cfg' ≡ client d
      → IsLawfulCodec cx
      → IsLawfulCache tc
      → ((value : Bytes) (ttl : Duration) (st : tc.Store)
          → (tc.set c.cfg.cache_key value ttl st).0 ≡ none)
      → c.cfg.cache_write ≡ true
      → d.cfg.cache_read ≡ true
      → (ctx ctx' : Context) (s : Sys tc ep) (tok : Token)
      → (refresh rt cx tc ep c ctx s).0 ≡ token_ok tok
      → IsInt64 (unix_seconds tok.expires_at)
      → let (_, s') = refresh rt cx tc ep c ctx s in
        let (_, s'') = begin_call rt cx tc ep ctx' s' in
        token_valid d.cfg.expiry_margin (pos (now rt s''.world).0) (cached_view tok) ≡ true
        → ((token rt cx tc ep d ctx' s').0 ≡ token_ok (cached_view tok))
          × ((token rt cx tc ep d ctx' s').1.sent ≡ s'.sent)
  new-token-refresh base base' cfg cfg' c d same h h' codec cache takes writes reads ctx ctx' s
        tok =
      token-refresh_shared rt cx tc ep c d ctx ctx' s tok codec cache takes
        (new-SameKey cx base base' cfg cfg' same h h') writes reads
