-- ===== src/Oauth/Client/Reading.antt =====
-- oauth/client.go over oauth/redis/cache.go: what a read of the cache gives, and what it logs.
use go_library.Prelude.{
  ◌≡◌, refl, Option, none, some, ◌∷◌, [], ◌++◌, pos, Bool-cases, inl, inr, if◌then◌else◌,
}
use go_library.Runtime.{Runtime}
use go_library.Logger.Value.{text}
use go_library.Logger.State.{now}
use go_library.Logger.Context.{Context}
use go_library.Logger.Handler.{debug, warn, err_attr}
use go_library.Oauth.Codec.{Codec, Bytes}
use go_library.Oauth.Token.{Token}
use go_library.Oauth.Token.Entry.{unmarshal_cache}
use go_library.Oauth.Setup.{Client}
use go_library.Oauth.Backend.{Endpoint}
use go_library.Oauth.Backend.Redis.{
  UniversalClient, Reading, bytes, nil, failure, translate, redis_cache,
}
use go_library.Oauth.Client.{Sys, token_valid, cache_attrs}
use go_library.Oauth.Client.Methods.{use_entry, use_reading, read_cache}

module _ (rt : Runtime) (cx : Codec) (rc : UniversalClient) (ep : Endpoint) (c : Client)
    (ctx : Context) where
  abbrev pub State : Type 0
  State = Sys (redis_cache rc) ep

  -- The token of an entry, if it decodes to one that is valid by the margin.
  abbrev pub usable : Option Token → State → Option Token
  usable none s = none
  usable (some tok) s =
      if token_valid c.cfg.expiry_margin (pos (now rt s.world).0) tok then some tok else none

  -- What a read of Redis comes to, from the state behind the command. Bytes are an entry. A key that is
  -- not there is a miss, at the debug level. Another error is a warning with its text. No request is sent.
  abbrev pub Reports : Reading → State → Option Token × State → Type 0
  Reports (bytes b) s (found, s') =
      (found ≡ usable (unmarshal_cache cx b) s) × (s'.store ≡ s.store) × (s'.sent ≡ s.sent)
  Reports nil s (found, s') =
      (found ≡ none)
      × (s' ≡ record s {
        world = (debug rt c.base ctx "oauth token cache miss" (cache_attrs c.cfg) s.world).1;
      })
  Reports (failure e) s (found, s') =
      (found ≡ none)
      × (s' ≡ record s {
        world =
            (warn rt c.base ctx "oauth token cache read failed"
              (cache_attrs c.cfg ++ ("error", text e) ∷ []) s.world).1;
      })

  use_entry_lem :
      (b : Bytes) (o : Option Token) (s : State)
      → let (found, s') = use_entry rt cx (redis_cache rc) ep c ctx b o s in
        (found ≡ usable o s) × (s'.store ≡ s.store) × (s'.sent ≡ s.sent)
  unfolding use_entry now
  use_entry_lem b none s = (refl, refl, refl)
  use_entry_lem b (some tok) s =
      elim (Bool-cases (token_valid c.cfg.expiry_margin (pos (now rt s.world).0) tok)) [
        | inl v ↦ rw (use_entry, v) (refl, refl, refl)
        | inr v ↦ rw (use_entry, v) (refl, refl, refl)
      ]

  use_reading-Reports :
      (q : Reading) (s : State)
      → Reports q s (use_reading rt cx (redis_cache rc) ep c ctx (translate q) s)
  unfolding use_reading translate err_attr
  use_reading-Reports (bytes b) s = use_entry_lem b (unmarshal_cache cx b) s
  use_reading-Reports nil s = (refl, refl)
  use_reading-Reports (failure e) s = (refl, refl)

  -- A client over Redis reads its cache by one `GET` of its key, and tells the results apart. Bytes give
  -- the token that they decode to, if it is valid by the margin at the time of the read. `redis.Nil`
  -- gives no token and a line of a miss at the debug level, and nothing else. Any other error of Redis
  -- gives no token and a warning with its text, and nothing else. No request is sent.
  pub read_cache-Reports :
      (s : State)
      → let (q, store) = rc.get c.cfg.cache_key s.store in
        Reports q (record s { store = store }) (read_cache rt cx (redis_cache rc) ep c ctx s)
  unfolding read_cache
  read_cache-Reports s =
      let (q, store) = rc.get c.cfg.cache_key s.store in
      use_reading-Reports q (record s { store = store })
