-- ===== src/Oauth/Setup/Keys.antt =====
-- oauth/oauth.go and oauth/cache.go: which clients have one key in the cache.
use go_library.Prelude.{◌≡◌, sym, ap, ◌∙◌}
use go_library.Logger.State.{Logger}
use go_library.Oauth.Codec.{Codec}
use go_library.Oauth.Setup.{
  Config, Client, client, new, with_grant, with_defaults, default_cache_key,
}
use go_library.Oauth.Setup.Ready.{new-with_defaults}

-- Two configurations that agree on what the key is derived from, or on the key that they set. Their
-- secrets, scopes and extra parameters may differ.
pub record SameKey (cfg cfg' : Config) : Type 0 where
  pub url : cfg.token_url ≡ cfg'.token_url
  pub grant : cfg.grant_type ≡ cfg'.grant_type
  pub id : cfg.client_id ≡ cfg'.client_id
  pub user : cfg.username ≡ cfg'.username
  pub key : cfg.cache_key ≡ cfg'.cache_key

with_defaults-SameKey :
    (cx : Codec) (cfg cfg' : Config)
    → SameKey cfg cfg'
    → (with_defaults cx (with_grant cfg)).cache_key ≡ (with_defaults cx (with_grant cfg')).cache_key
unfolding with_defaults with_grant default_cache_key
with_defaults-SameKey cx cfg cfg' s = cc (s.url, s.grant, s.id, s.user, s.key)

pub new-SameKey :
    (cx : Codec) (base base' : Logger) (cfg cfg' : Config) {c c' : Client}
    → SameKey cfg cfg'
    → new cx base cfg ≡ client c
    → new cx base' cfg' ≡ client c'
    → c.cfg.cache_key ≡ c'.cfg.cache_key
new-SameKey cx base base' cfg cfg' s h h' =
    sym (ap (λ (c : Client). c.cfg.cache_key) (new-with_defaults cx base cfg h))
    ∙ with_defaults-SameKey cx cfg cfg' s
    ∙ ap (λ (c : Client). c.cfg.cache_key) (new-with_defaults cx base' cfg' h')
