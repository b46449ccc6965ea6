-- ===== src/Oauth/Client/Secrecy/Logs.antt =====
-- oauth/client.go: what a client leaves in the log does not depend on its credentials, nor on the tokens.
use go_library.Prelude.{
  ◌≡◌, refl, ap, ◌∙◌, String, Bool, true, false, Option, none, some, List, pos, string_eq,
  if◌then◌else◌,
}
use go_library.Runtime.{Runtime}
use go_library.Logger.State.{World, now}
use go_library.Logger.Context.{Context}
use go_library.Oauth.Codec.{Codec, Time, int_eq}
use go_library.Oauth.Token.{Token}
use go_library.Oauth.Token.Entry.{marshal_cache}
use go_library.Oauth.Setup.{Client}
use go_library.Oauth.Backend.{TokenCache, Request, Endpoint}
use go_library.Oauth.Client.{
  Fetched, token_ok, token_error, Sys, pure, cache_set, present, cache_ttl, base_attrs, cache_attrs,
  exchange, fetch,
}
use go_library.Oauth.Client.Methods.{
  read_cache, report_write, write_cache, settle, fetch_and_cache, begin_call, found_or_fetch, token,
  refresh,
}
use go_library.Oauth.Client.Silence.{if-IsSilent, read_cache-IsSilent}
use go_library.Oauth.Client.Secrecy.{
  Credentials, with_credentials, AlikeFetched, AlikeGot, SameWorld, BothFound, AlikeServed,
  AlikeWrites,
}
use go_library.Oauth.Client.Secrecy.Reading.{read_cache-Alike, exchange-Alike}

module _ (rt : Runtime) (cx : Codec) (tc tc' : TokenCache) (ep ep' : Endpoint) (c : Client)
    (k : Credentials) where
  abbrev c' : Client
  c' = with_credentials k c

  report_write-Alike :
      (ctx : Context) (e e' : Option String) (s : Sys tc ep) (s' : Sys tc' ep')
      → e ≡ e'
      → SameWorld s s'
      → SameWorld (report_write rt cx tc ep c ctx e s).1 (report_write rt cx tc' ep' c' ctx e' s').1
  unfolding report_write cache_attrs
  report_write-Alike ctx none none s s' p h = h
  report_write-Alike ctx (some e) (some e') s s' p h = cc (p, h)
  report_write-Alike ctx none (some e) s s' p h = cc p
  report_write-Alike ctx (some e) none s s' p h = cc p

  ttl-Alike :
      (t t' : Token) (w w' : World)
      → t.expires_at ≡ t'.expires_at
      → w ≡ w'
      → cache_ttl c.cfg (pos (now rt w).0) t ≡ cache_ttl c'.cfg (pos (now rt w').0) t'
  unfolding cache_ttl
  ttl-Alike t t' w w' e h = cc (e, h)

  module _ (writes : AlikeWrites tc tc' c) where
    write_cache-Alike :
        (ctx : Context) (t t' : Token) (s : Sys tc ep) (s' : Sys tc' ep')
        → t.expires_at ≡ t'.expires_at
        → SameWorld s s'
        → SameWorld (write_cache rt cx tc ep c ctx t s).1 (write_cache rt cx tc' ep' c' ctx t' s').1
    unfolding write_cache
    write_cache-Alike ctx t t' s s' e h =
        let ttl = cache_ttl c.cfg (pos (now rt s.world).0) t in
        let ttl' = cache_ttl c'.cfg (pos (now rt s'.world).0) t' in
        let (r, u) = cache_set c.cfg.cache_key (marshal_cache cx t) ttl (present rt s).1 in
        let (r', u') = cache_set c.cfg.cache_key (marshal_cache cx t') ttl' (present rt s').1 in
        report_write-Alike ctx r r' u u'
          (writes (marshal_cache cx t) (marshal_cache cx t') ttl s.store s'.store
            ∙ ap (λ x. (tc'.set c.cfg.cache_key (marshal_cache cx t') x s'.store).0)
                (ttl-Alike t t' s.world s'.world e h))
          (ap (λ w. (now rt w).1) h)

    if_write-Alike :
        (b : Bool) (ctx : Context) (t t' : Token) (s : Sys tc ep) (s' : Sys tc' ep')
        → t.expires_at ≡ t'.expires_at
        → SameWorld s s'
        → SameWorld
            ((if b then write_cache rt cx tc ep c ctx t else pure tt) s).1
            ((if b then write_cache rt cx tc' ep' c' ctx t' else pure tt) s').1
    if_write-Alike true ctx t t' s s' e h = write_cache-Alike ctx t t' s s' e h
    if_write-Alike false ctx t t' s s' e h = h

    settle-Alike :
        (ctx : Context) (start start' : Time) (f f' : Fetched) (s : Sys tc ep) (s' : Sys tc' ep')
        → start ≡ start'
        → AlikeFetched f f'
        → SameWorld s s'
        → SameWorld
            (settle rt cx tc ep c ctx start f s).1
            (settle rt cx tc' ep' c' ctx start' f' s').1
    unfolding settle base_attrs
    settle-Alike ctx start start' (token_ok t) (token_ok t') s s' p (e, i) h =
        if_write-Alike c.cfg.cache_write ctx t t' _ _ e (cc (p, e, i, h))
    settle-Alike ctx start start' (token_error e) (token_error e') s s' p a h = cc (p, a, h)
    settle-Alike ctx start start' (token_ok t) (token_error e) s s' p a h = absurd a
    settle-Alike ctx start start' (token_error e) (token_ok t) s s' p a h = absurd a

    fetch_and_cache-Alike :
        (ctx : Context) (s : Sys tc ep) (s' : Sys tc' ep')
        → AlikeServed cx tc tc' ep ep' c k s.server s'.server
        → SameWorld s s'
        → SameWorld
            (fetch_and_cache rt cx tc ep c ctx s).1
            (fetch_and_cache rt cx tc' ep' c' ctx s').1
    unfolding fetch_and_cache fetch
    fetch_and_cache-Alike ctx s s' a h =
        let (start, u) = present rt s in
        let (start', u') = present rt s' in
        let (f, v) = exchange rt cx tc ep c.cfg (ep.bad_url c.cfg.token_url) u in
        let (f', v') = exchange rt cx tc' ep' c'.cfg (ep'.bad_url c.cfg.token_url) u' in
        let (alike, same) =
          exchange-Alike rt cx tc tc' ep ep' c k (ep.bad_url c.cfg.token_url)
            (ep'.bad_url c.cfg.token_url) u u' a.0 a (ap (λ w. (now rt w).1) h) in
        settle-Alike ctx start start' f f' v v' (ap (λ w. pos (now rt w).0) h) alike same

    look-Alike :
        (b : Bool) (ctx : Context) (s : Sys tc ep) (s' : Sys tc' ep')
        → AlikeGot cx (tc.get c.cfg.cache_key s.store).0 (tc'.get c.cfg.cache_key s'.store).0
        → SameWorld s s'
        → let (r, u) = (if b then read_cache rt cx tc ep c ctx else pure none) s in
          let (r', u') = (if b then read_cache rt cx tc' ep' c' ctx else pure none) s' in
          BothFound r r' × SameWorld u u'
    look-Alike true ctx s s' g h = read_cache-Alike rt cx tc tc' ep ep' c k ctx s s' g h
    look-Alike false ctx s s' g h = (tt, h)

    found-Alike :
        (ctx : Context) (r r' : Option Token) (s : Sys tc ep) (s' : Sys tc' ep')
        → BothFound r r'
        → AlikeServed cx tc tc' ep ep' c k s.server s'.server
        → SameWorld s s'
        → SameWorld
            (found_or_fetch rt cx tc ep c ctx r s).1
            (found_or_fetch rt cx tc' ep' c' ctx r' s').1
    unfolding found_or_fetch
    found-Alike ctx none none s s' b a h = fetch_and_cache-Alike ctx s s' a h
    found-Alike ctx (some t) (some t') s s' b a h = h
    found-Alike ctx none (some t) s s' b a h = absurd b
    found-Alike ctx (some t) none s s' b a h = absurd b

    -- Two clients with one configuration but for their credentials, over any two caches and endpoints, in
    -- one world of the logger. The caches answer the read of the key alike, and writes under it: with
    -- entries that decode to tokens of one expiry, both or neither with an access token, with misses, or
    -- with one error. The endpoints answer the token requests alike: with tokens of one expiry and one
    -- instance URL, or with one error. Then `Token` leaves one world behind, all lines included, and so
    -- does `Refresh`: no line depends on the credentials or on the tokens.
    pub token-Alike :
        (ctx : Context) (w : World) (st : tc.Store) (st' : tc'.Store) (sv : ep.Server)
        (sv' : ep'.Server) (sent sent' : List Request)
        → AlikeGot cx (tc.get c.cfg.cache_key st).0 (tc'.get c.cfg.cache_key st').0
        → AlikeServed cx tc tc' ep ep' c k sv sv'
        → let s : Sys tc ep = record { world = w; store = st; server = sv; sent = sent } in
          let s' : Sys tc' ep' = record { world = w; store = st'; server = sv'; sent = sent' } in
          SameWorld (token rt cx tc ep c ctx s).1 (token rt cx tc' ep' c' ctx s').1
          × SameWorld (refresh rt cx tc ep c ctx s).1 (refresh rt cx tc' ep' c' ctx s').1
    unfolding token refresh begin_call
    token-Alike ctx w st st' sv sv' sent sent' g a =
        let s : Sys tc ep = record { world = w; store = st; server = sv; sent = sent } in
        let s' : Sys tc' ep' = record { world = w; store = st'; server = sv'; sent = sent' } in
        let (ctx', u) = begin_call rt cx tc ep ctx s in
        let (_, u') = begin_call rt cx tc' ep' ctx s' in
        let look = λ (b : Bool). (if b then read_cache rt cx tc ep c ctx' else pure none) u in
        let look' = λ (b : Bool). (if b then read_cache rt cx tc' ep' c' ctx' else pure none) u' in
        let (both, same) = look-Alike c.cfg.cache_read ctx' u u' g refl in
        let still =
          (if-IsSilent rt cx tc ep c.cfg.cache_read (read_cache rt cx tc ep c ctx') (pure none)
            (read_cache-IsSilent rt cx tc ep c ctx') (λ x. (refl, refl)) u).1 in
        let still' =
          (if-IsSilent rt cx tc' ep' c.cfg.cache_read (read_cache rt cx tc' ep' c' ctx') (pure none)
            (read_cache-IsSilent rt cx tc' ep' c' ctx') (λ x. (refl, refl)) u').1 in
        (
          found-Alike ctx' (look c.cfg.cache_read).0 (look' c.cfg.cache_read).0
              (look c.cfg.cache_read).1 (look' c.cfg.cache_read).1 both (rw (still, still') a) same,
          fetch_and_cache-Alike ctx' u u' a refl,
        )
