-- ===== src/Oauth/Client/Secrecy/Reading.antt =====
-- oauth/client.go: two clients that read and fetch alike.
use go_library.Prelude.{
  ◌≡◌, refl, sym, ap, ◌∙◌, String, ◌||◌, Dict, Option, none, some, take, ltb, leb, pos, string_eq,
  Bool-cases, inl, inr,
}
use go_library.Runtime.{Runtime}
use go_library.Logger.State.{now}
use go_library.Logger.Context.{Context}
use go_library.Oauth.Codec.{Bytes, Codec, Duration, Time, int_eq}
use go_library.Oauth.Token.{Token, Field}
use go_library.Oauth.Token.Entry.{unmarshal_cache}
use go_library.Oauth.Setup.{Client}
use go_library.Oauth.Backend.{
  Got, hit, miss, failed, TokenCache, Reply, no_response, unreadable, response, Endpoint,
}
use go_library.Oauth.Client.{
  max_body_bytes, token_valid, token_request, Sys, post, cache_get, cache_attrs, parse_fields,
  parse_reply, read_reply, exchange,
}
use go_library.Oauth.Client.Methods.{use_entry, use_reading, read_cache}
use go_library.Oauth.Client.Secrecy.{
  Credentials, with_credentials, SameUse, AlikeFetched, AlikeEntries, AlikeGot, AlikeFields,
  AlikeReply, SameWorld, BothFound, AlikeServed,
}

token_valid-SameUse :
    (margin : Duration) (now : Time) (t t' : Token)
    → SameUse t t'
    → token_valid margin now t ≡ token_valid margin now t'
unfolding token_valid
token_valid-SameUse margin now t t' (e, u) = cc (e, u)

module _ (rt : Runtime) (cx : Codec) (tc tc' : TokenCache) (ep ep' : Endpoint) (c : Client)
    (k : Credentials) where
  abbrev c' : Client
  c' = with_credentials k c

  use_entry-Alike :
      (ctx : Context) (b b' : Bytes) (t t' : Option Token) (s : Sys tc ep) (s' : Sys tc' ep')
      → AlikeEntries cx b b' t t'
      → SameWorld s s'
      → let (r, u) = use_entry rt cx tc ep c ctx b t s in
        let (r', u') = use_entry rt cx tc' ep' c' ctx b' t' s' in BothFound r r' × SameWorld u u'
  unfolding use_entry cache_attrs
  use_entry-Alike ctx b b' none none s s' e h = (tt, cc (e, h))
  use_entry-Alike ctx b b' (some t) (some t') s s' (e, u) h =
      let now_ = pos (now rt s.world).0 in
      let margin = c.cfg.expiry_margin in
      let same : token_valid margin (pos (now rt s'.world).0) t' ≡ token_valid margin now_ t =
        ap (λ w. token_valid margin (pos (now rt w).0) t') (sym h)
        ∙ sym (token_valid-SameUse margin now_ t t' (e, u)) in
      elim (Bool-cases (token_valid margin now_ t)) [
        | inl ok ↦ rw (ok, same ∙ ok) (tt, cc (e, h))
        | inr no_ ↦ rw (no_, same ∙ no_) (tt, cc h)
      ]
  use_entry-Alike ctx b b' none (some t') s s' e h = absurd e
  use_entry-Alike ctx b b' (some t) none s s' e h = absurd e

  use_reading-Alike :
      (ctx : Context) (g g' : Got) (s : Sys tc ep) (s' : Sys tc' ep')
      → AlikeGot cx g g'
      → SameWorld s s'
      → let (r, u) = use_reading rt cx tc ep c ctx g s in
        let (r', u') = use_reading rt cx tc' ep' c' ctx g' s' in BothFound r r' × SameWorld u u'
  unfolding use_reading cache_attrs
  use_reading-Alike ctx (hit b) (hit b') s s' e h =
      use_entry-Alike ctx b b' (unmarshal_cache cx b) (unmarshal_cache cx b') s s' e h
  use_reading-Alike ctx (miss e) (miss e') s s' p h = (tt, cc h)
  use_reading-Alike ctx (failed e) (failed e') s s' p h = (tt, cc (p, h))
  use_reading-Alike ctx (hit b) (miss e) s s' p h = absurd p
  use_reading-Alike ctx (hit b) (failed e) s s' p h = absurd p
  use_reading-Alike ctx (miss e) (hit b) s s' p h = absurd p
  use_reading-Alike ctx (miss e) (failed e') s s' p h = absurd p
  use_reading-Alike ctx (failed e) (hit b) s s' p h = absurd p
  use_reading-Alike ctx (failed e) (miss e') s s' p h = absurd p

  pub read_cache-Alike :
      (ctx : Context) (s : Sys tc ep) (s' : Sys tc' ep')
      → AlikeGot cx (tc.get c.cfg.cache_key s.store).0 (tc'.get c.cfg.cache_key s'.store).0
      → SameWorld s s'
      → let (r, u) = read_cache rt cx tc ep c ctx s in
        let (r', u') = read_cache rt cx tc' ep' c' ctx s' in BothFound r r' × SameWorld u u'
  unfolding read_cache
  read_cache-Alike ctx s s' g h =
      let (got, u) = cache_get c.cfg.cache_key s in
      let (got', u') = cache_get c.cfg.cache_key s' in use_reading-Alike ctx got got' u u' g h

  fields-Alike :
      (b b' : Bytes) (f f' : Option (Dict Field)) (s : Sys tc ep) (s' : Sys tc' ep')
      → AlikeFields cx c.cfg.default_ttl b b' f f'
      → SameWorld s s'
      → let (r, u) = parse_fields rt cx tc ep c.cfg b f s in
        let (r', u') = parse_fields rt cx tc' ep' c'.cfg b' f' s' in
        AlikeFetched r r' × SameWorld u u'
  unfolding parse_fields
  fields-Alike b b' none none s s' e h = (cc e, h)
  fields-Alike b b' (some raw) (some raw') s s' e h = rw (← h) (e (pos (now rt s.world).0), refl)
  fields-Alike b b' none (some raw) s s' e h = absurd e
  fields-Alike b b' (some raw) none s s' e h = absurd e

  reply-Alike :
      (r r' : Reply) (s : Sys tc ep) (s' : Sys tc' ep')
      → AlikeReply cx c.cfg.default_ttl r r'
      → SameWorld s s'
      → let (f, u) = read_reply rt cx tc ep c.cfg r s in
        let (f', u') = read_reply rt cx tc' ep' c'.cfg r' s' in AlikeFetched f f' × SameWorld u u'
  unfolding read_reply parse_reply
  reply-Alike (no_response e) (no_response e') s s' p h = (cc p, h)
  reply-Alike (unreadable e) (unreadable e') s s' p h = (cc p, h)
  reply-Alike (response status body) (response status' body') s s' (same, failing, good) h =
      rw (← same) (elim (Bool-cases (ltb status 200 || leb 300 status)) [
        | inl bad ↦ rw bad (cc (failing bad), h)
        | inr ok ↦ rw ok (
            fields-Alike (take max_body_bytes body) (take max_body_bytes body') _ _ s s' (good ok)
              h)
      ])
  reply-Alike (no_response e) (unreadable e') s s' p h = absurd p
  reply-Alike (no_response e) (response status body) s s' p h = absurd p
  reply-Alike (unreadable e) (no_response e') s s' p h = absurd p
  reply-Alike (unreadable e) (response status body) s s' p h = absurd p
  reply-Alike (response status body) (no_response e) s s' p h = absurd p
  reply-Alike (response status body) (unreadable e) s s' p h = absurd p

  pub exchange-Alike :
      (bad bad' : Option String) (s : Sys tc ep) (s' : Sys tc' ep')
      → bad ≡ bad'
      → AlikeServed cx tc tc' ep ep' c k s.server s'.server
      → SameWorld s s'
      → let (f, u) = exchange rt cx tc ep c.cfg bad s in
        let (f', u') = exchange rt cx tc' ep' c'.cfg bad' s' in AlikeFetched f f' × SameWorld u u'
  unfolding exchange
  exchange-Alike none none s s' p (_, a) h =
      let (r, u) = post (token_request c.cfg) s in
      let (r', u') = post (token_request c'.cfg) s' in reply-Alike r r' u u' a h
  exchange-Alike (some e) (some e') s s' p a h = (cc p, h)
  exchange-Alike none (some e) s s' p a h = cc p
  exchange-Alike (some e) none s s' p a h = cc p
