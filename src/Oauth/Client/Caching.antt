-- ===== src/Oauth/Client/Caching.antt =====
-- oauth/client.go over a cache that keeps its promises: `Refresh` or `Invalidate`, and then `Token`.
use go_library.Prelude.{
  pos, ◌≡◌, refl, sym, ap, ◌∙◌, String, Bool, true, false, Option, none, some, ◌++◌, if◌then◌else◌,
}
use mathlib.Core.Path.{subst}
use go_library.Runtime.{Runtime}
use go_library.Logger.Context.{Context}
use go_library.Logger.State.{now}
use go_library.Oauth.Codec.{Bytes, Codec, Duration, IsInt64, IsLawfulCodec, Time, unix_seconds}
use go_library.Oauth.Token.{Token}
use go_library.Oauth.Token.Entry.{marshal_cache}
use go_library.Oauth.Token.RoundTrip.{cached_view, unmarshal_cache-marshal_cache}
use go_library.Oauth.Setup.{Client}
use go_library.Oauth.Backend.{hit, miss, TokenCache, IsLawfulCache, Endpoint}
use go_library.Oauth.Client.{
  Fetched, token_ok, token_error, token_valid, cache_ttl, Sys, present, cache_set, cache_delete,
  pure, fetch,
}
use go_library.Oauth.Client.Silence.{requests}
use go_library.Oauth.Client.Serving.{IsCached, from_cache, fetched, token-Outcome}
use go_library.Oauth.Client.Methods.{
  report_write, write_cache, settle, fetch_and_cache, begin_call, token, refresh, invalidate,
}

module _ (rt : Runtime) (cx : Codec) (tc : TokenCache) (ep : Endpoint) where
  -- The state of the cache after a write of the token under the key of the client, at some time.
  abbrev pub IsWritten : Client → Token → tc.Store → Type 0
  IsWritten c tok st =
      (ttl : Duration) × (old : tc.Store) × (st
        ≡ (tc.set c.cfg.cache_key (marshal_cache cx tok) ttl old).1)

  report_write-store :
      (c : Client) (ctx : Context) (e : Option String) (s : Sys tc ep)
      → (report_write rt cx tc ep c ctx e s).1.store ≡ s.store
  unfolding report_write
  report_write-store c ctx none s = refl
  report_write-store c ctx (some e) s = refl

  write_cache-store :
      (c : Client) (ctx : Context) (tok : Token) (s : Sys tc ep)
      → IsWritten c tok (write_cache rt cx tc ep c ctx tok s).1.store
  unfolding write_cache
  write_cache-store c ctx tok s =
      let (t, s') = present rt s in
      let (e, s'') = cache_set c.cfg.cache_key (marshal_cache cx tok) (cache_ttl c.cfg t tok) s' in
      (cache_ttl c.cfg t tok, s.store, report_write-store c ctx e s'')

  if_write :
      (b : Bool) (c : Client) (ctx : Context) (tok : Token) (s : Sys tc ep)
      → b ≡ true
      → IsWritten c tok
          ((if b then write_cache rt cx tc ep c ctx tok else (λ x. (tt, x))) s).1.store
  if_write true c ctx tok s h = write_cache-store c ctx tok s
  if_write false c ctx tok s h = absurd (cc h)

  settle-store :
      (c : Client) (ctx : Context) (start : Time) (f : Fetched) (s : Sys tc ep) (tok : Token)
      → c.cfg.cache_write ≡ true
      → (settle rt cx tc ep c ctx start f s).0 ≡ token_ok tok
      → IsWritten c tok (settle rt cx tc ep c ctx start f s).1.store
  unfolding settle
  settle-store c ctx start (token_error e) s tok w h = cc h
  settle-store c ctx start (token_ok tok') s tok w h =
      let same : tok' ≡ tok = cc h in
      subst (λ x. IsWritten c x (settle rt cx tc ep c ctx start (token_ok tok') s).1.store) same
        (if_write c.cfg.cache_write c ctx tok' _ w)

  refresh-store :
      (c : Client) (ctx : Context) (s : Sys tc ep) (tok : Token)
      → c.cfg.cache_write ≡ true
      → (refresh rt cx tc ep c ctx s).0 ≡ token_ok tok
      → IsWritten c tok (refresh rt cx tc ep c ctx s).1.store
  unfolding refresh fetch_and_cache
  refresh-store c ctx s tok w h =
      let (ctx', s1) = begin_call rt cx tc ep ctx s in
      let (start, s2) = present rt s1 in
      let (f, s3) = fetch rt cx tc ep c.cfg s2 in settle-store c ctx' start f s3 tok w h

  IsCached-unique :
      (c : Client) (s : Sys tc ep) (a b : Token)
      → IsCached rt cx tc ep c s a
      → IsCached rt cx tc ep c s b
      → a ≡ b
  IsCached-unique c s a b i j =
      let same : hit i.bytes ≡ hit j.bytes = sym i.is_hit ∙ j.is_hit in
      cc (same, i.decoded, j.decoded)

  module _ (c : Client) (s : Sys tc ep) where
    hit_lem :
        (ctx : Context) (tok : Token)
        → IsCached rt cx tc ep c (begin_call rt cx tc ep ctx s).1 tok
        → ((token rt cx tc ep c ctx s).0 ≡ token_ok tok)
          × ((token rt cx tc ep c ctx s).1.sent ≡ s.sent)
    unfolding begin_call
    hit_lem ctx tok i = elim (token-Outcome rt cx tc ep c ctx s) [
      | from_cache tok' j result still ↦
          (result ∙ ap token_ok (IsCached-unique c _ tok' tok j i), still)
      | fetched before none_there _ _ _ ↦ absurd (none_there tok i)
    ]

    -- With no entry, the endpoint is asked.
    miss_lem :
        (ctx : Context) (e : String)
        → (tc.get c.cfg.cache_key s.store).0 ≡ miss e
        → ((before : Sys tc ep) × (before.server ≡ s.server)
            × ((token rt cx tc ep c ctx s).0 ≡ (fetch rt cx tc ep c.cfg before).0))
          × ((token rt cx tc ep c ctx s).1.sent
              ≡ s.sent ++ requests rt cx tc ep c.cfg (ep.bad_url c.cfg.token_url))
    unfolding begin_call
    miss_lem ctx e h = elim (token-Outcome rt cx tc ep c ctx s) [
      | from_cache tok j _ _ ↦ absurd (cc (h, j.is_hit))
      | fetched before _ same result asked ↦ ((before, same, result), asked)
    ]

  -- What a deletion leaves of a state.
  delete_lem :
      (b : Bool) (key : String) (s : Sys tc ep)
      → b ≡ true
      → let (e, s') = (if b then cache_delete key else pure none) s in
        (e ≡ (tc.delete key s.store).0)
        × (s'.store ≡ (tc.delete key s.store).1)
        × (s'.sent ≡ s.sent)
        × (s'.server ≡ s.server)
  delete_lem true key s h = (refl, refl, refl, refl)
  delete_lem false key s h = cc h

  -- One client refreshes, and another that has the same key in the cache asks for a token.
  pub token-refresh_shared :
      (c d : Client) (ctx ctx' : Context) (s : Sys tc ep) (tok : Token)
      → IsLawfulCodec cx
      → IsLawfulCache tc
      → ((value : Bytes) (ttl : Duration) (st : tc.Store)
          → (tc.set c.cfg.cache_key value ttl st).0 ≡ none)
      → c.cfg.cache_key ≡ d.cfg.cache_key
      → c.cfg.cache_write ≡ true
      → d.cfg.cache_read ≡ true
      → (refresh rt cx tc ep c ctx s).0 ≡ token_ok tok
      → IsInt64 (unix_seconds tok.expires_at)
      → let (_, s') = refresh rt cx tc ep c ctx s in
        let (_, s'') = begin_call rt cx tc ep ctx' s' in
        token_valid d.cfg.expiry_margin (pos (now rt s''.world).0) (cached_view tok) ≡ true
        → ((token rt cx tc ep d ctx' s').0 ≡ token_ok (cached_view tok))
          × ((token rt cx tc ep d ctx' s').1.sent ≡ s'.sent)
  unfolding begin_call
  token-refresh_shared c d ctx ctx' s tok codec cache takes key writes reads h i valid =
      let (ttl, old, e) = refresh-store c ctx s tok writes h in
      hit_lem d (refresh rt cx tc ep c ctx s).1 ctx' (cached_view tok) (record {
        reads = reads;
        bytes = marshal_cache cx tok;
        is_hit =
            ap (λ st. (tc.get d.cfg.cache_key st).0) e
            ∙ ap (λ k. (tc.get k (tc.set c.cfg.cache_key (marshal_cache cx tok) ttl old).1).0)
                (sym key)
            ∙ cache.get-set c.cfg.cache_key _ ttl old (takes _ ttl old);
        decoded = unmarshal_cache-marshal_cache cx codec tok i;
        is_valid = valid;
      })

  -- For a client that reads and writes a cache, over a codec and a cache that keep their promises and
  -- where writes under its key succeed: after a refresh that gave a token whose expiry is an int64 in
  -- seconds, `Token` gives that token, as it comes back from the cache, and sends nothing, if the token
  -- that comes back is valid by the margin at that time.
  pub token-refresh :
      (c : Client) (ctx ctx' : Context) (s : Sys tc ep) (tok : Token)
      → IsLawfulCodec cx
      → IsLawfulCache tc
      → ((value : Bytes) (ttl : Duration) (st : tc.Store)
          → (tc.set c.cfg.cache_key value ttl st).0 ≡ none)
      → c.cfg.cache_write ≡ true
      → c.cfg.cache_read ≡ true
      → (refresh rt cx tc ep c ctx s).0 ≡ token_ok tok
      → IsInt64 (unix_seconds tok.expires_at)
      → let (_, s') = refresh rt cx tc ep c ctx s in
        let (_, s'') = begin_call rt cx tc ep ctx' s' in
        token_valid c.cfg.expiry_margin (pos (now rt s''.world).0) (cached_view tok) ≡ true
        → ((token rt cx tc ep c ctx' s').0 ≡ token_ok (cached_view tok))
          × ((token rt cx tc ep c ctx' s').1.sent ≡ s'.sent)
  token-refresh c ctx ctx' s tok codec cache takes writes reads =
      token-refresh_shared c c ctx ctx' s tok codec cache takes refl writes reads

  -- For a client with a cache that keeps its promises: after `Invalidate` succeeded, `Token` gives what
  -- a fetch gives, from the state that the endpoint is in, and sends the token request, or nothing where
  -- no request can be built.
  pub token-invalidate :
      (c : Client) (ctx : Context) (s : Sys tc ep)
      → IsLawfulCache tc
      → c.cfg.has_cache ≡ true
      → (invalidate rt cx tc ep c s).0 ≡ none
      → let (_, s') = invalidate rt cx tc ep c s in
        ((before : Sys tc ep) × (before.server ≡ s.server)
          × ((token rt cx tc ep c ctx s').0 ≡ (fetch rt cx tc ep c.cfg before).0))
        × ((token rt cx tc ep c ctx s').1.sent
            ≡ s.sent ++ requests rt cx tc ep c.cfg (ep.bad_url c.cfg.token_url))
  unfolding invalidate
  token-invalidate c ctx s cache has h =
      let (_, s') = invalidate rt cx tc ep c s in
      let (gone, store, sent, server) = delete_lem c.cfg.has_cache c.cfg.cache_key s has in
      let (e, missing) = cache.get-delete c.cfg.cache_key s.store (sym gone ∙ h) in
      let ((before, same, result), asked) =
        miss_lem c s' ctx e (ap (λ st. (tc.get c.cfg.cache_key st).0) store ∙ missing) in
      (
        (before, same ∙ server, result),
        asked ∙ ap (λ l. l ++ requests rt cx tc ep c.cfg (ep.bad_url c.cfg.token_url)) sent,
      )
