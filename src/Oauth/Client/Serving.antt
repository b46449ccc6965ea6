-- ===== src/Oauth/Client/Serving.antt =====
-- oauth/client.go: what `Token` takes from the cache and what it asks of the endpoint.
use go_library.Prelude.{
  pos, ◌≡◌, refl, ap, ◌∙◌, ◌↔◌, Bool, true, false, Option, none, some, ◌++◌, if◌then◌else◌,
}
use go_library.Runtime.{Runtime}
use go_library.Logger.Context.{Context}
use go_library.Logger.State.{now}
use go_library.Oauth.Codec.{Bytes, Codec}
use go_library.Oauth.Token.{Token}
use go_library.Oauth.Token.Entry.{unmarshal_cache}
use go_library.Oauth.Setup.{Client}
use go_library.Oauth.Backend.{Got, hit, miss, failed, TokenCache, Endpoint}
use go_library.Oauth.Client.{
  Fetched, token_ok, token_valid, Sys, M, present, pure, cache_get, fetch,
}
use go_library.Oauth.Client.Silence.{
  if-IsSilent, requests, exchange-sent, settle_lem, read_cache-IsSilent,
}
use go_library.Oauth.Client.Methods.{
  use_entry, use_reading, read_cache, found_or_fetch, fetch_and_cache, begin_call, token,
}

module _ (rt : Runtime) (cx : Codec) (tc : TokenCache) (ep : Endpoint) where
  -- The cache has a token that a client uses: its entry decodes, and the token is valid by the margin.
  pub record IsCached (c : Client) (s : Sys tc ep) (tok : Token) : Type 0 where
    pub reads : c.cfg.cache_read ≡ true
    pub bytes : Bytes
    pub is_hit : (tc.get c.cfg.cache_key s.store).0 ≡ hit bytes
    pub decoded : unmarshal_cache cx bytes ≡ some tok
    pub is_valid : token_valid c.cfg.expiry_margin (pos (now rt s.world).0) tok ≡ true

  module _ (c : Client) (ctx : Context) (tok : Token) where
    use_lem :
        (ok : Bool) (tok' : Token) (m k : M tc ep (Option Token)) (s s' : Sys tc ep)
        → (m s).0 ≡ some tok'
        → (k s).0 ≡ none
        → ((if ok then m else k) s).0 ≡ some tok ↔ (some tok' ≡ some tok) × (ok ≡ true)
    use_lem true tok' m k s s' x y = (λ h. (cc (x, h), refl), λ h. cc (x, h.0))
    use_lem false tok' m k s s' x y = (λ h. cc (y, h), λ h. cc h.1)

    entry_lem :
        (t : Option Token) (bytes : Bytes) (s : Sys tc ep)
        → (use_entry rt cx tc ep c ctx bytes t s).0 ≡ some tok
          ↔ (t ≡ some tok) × (token_valid c.cfg.expiry_margin (pos (now rt s.world).0) tok ≡ true)
    unfolding use_entry
    entry_lem none bytes s = (λ h. cc h, λ h. cc h.0)
    entry_lem (some tok') bytes s =
        let valid = token_valid c.cfg.expiry_margin (pos (now rt s.world).0) tok' in
        let (there, back) = use_lem valid tok' _ _ _ s refl refl in
        (
          λ h. let (same, ok) = there h in (same, cc (same, ok)),
          λ h. let (same, ok) = h in back (same, cc (same, ok)),
        )

    reading_lem :
        (g : Got) (s : Sys tc ep)
        → (use_reading rt cx tc ep c ctx g s).0 ≡ some tok
          ↔ (bytes : Bytes) × (g ≡ hit bytes)
            × (unmarshal_cache cx bytes ≡ some tok)
            × (token_valid c.cfg.expiry_margin (pos (now rt s.world).0) tok ≡ true)
    unfolding use_reading
    reading_lem (hit bytes) s =
        let (there, back) = entry_lem (unmarshal_cache cx bytes) bytes s in
        (
          λ h. let (d, v) = there h in (bytes, refl, d, v),
          λ h. let (b, e, d, v) = h in back (cc (e, d), v),
        )
    reading_lem (miss e) s = (λ h. cc h, λ h. cc h.1)
    reading_lem (failed e) s = (λ h. cc h, λ h. cc h.1)

    look_lem :
        (reads : Bool) (s : Sys tc ep)
        → ((if reads then read_cache rt cx tc ep c ctx else pure none) s).0 ≡ some tok
          ↔ (reads ≡ true)
            × (bytes : Bytes) × ((tc.get c.cfg.cache_key s.store).0 ≡ hit bytes)
            × (unmarshal_cache cx bytes ≡ some tok)
            × (token_valid c.cfg.expiry_margin (pos (now rt s.world).0) tok ≡ true)
    unfolding read_cache
    look_lem true s =
        let (g, s') = cache_get c.cfg.cache_key s in
        let (there, back) = reading_lem g s' in
        (
          λ h. let (b, e, d, v) = there h in (refl, b, e, d, v),
          λ h. let (_, b, e, d, v) = h in back (b, e, d, v),
        )
    look_lem false s = (λ h. cc h, λ h. cc h.0)

  -- The two ways in which a call of `Token` can go.
  pub data Outcome (c : Client) (s : Sys tc ep) (r : Fetched) (s' : Sys tc ep) : Type 0 where
    from_cache :
        (tok : Token) → IsCached c s tok → r ≡ token_ok tok → s'.sent ≡ s.sent → Outcome c s r s'
    fetched :
        (before : Sys tc ep)
        → ((tok : Token) → IsCached c s tok → ⊥)
        → before.server ≡ s.server
        → r ≡ (fetch rt cx tc ep c.cfg before).0
        → s'.sent ≡ s.sent ++ requests rt cx tc ep c.cfg (ep.bad_url c.cfg.token_url)
        → Outcome c s r s'

  fetch_and_cache_lem :
      (c : Client) (ctx : Context) (s : Sys tc ep)
      → let s' = (present rt s).1 in
        ((fetch_and_cache rt cx tc ep c ctx s).0 ≡ (fetch rt cx tc ep c.cfg s').0)
        × ((fetch_and_cache rt cx tc ep c ctx s).1.sent
            ≡ s.sent ++ requests rt cx tc ep c.cfg (ep.bad_url c.cfg.token_url))
  unfolding fetch_and_cache fetch
  fetch_and_cache_lem c ctx s =
      let (start, s') = present rt s in
      let (f, s'') = fetch rt cx tc ep c.cfg s' in
      let (same, still, _) = settle_lem rt cx tc ep c ctx start f s'' in
      (same, still ∙ exchange-sent rt cx tc ep c.cfg _ s')

  outcome_lem :
      (c : Client) (ctx : Context) (s s' : Sys tc ep) (found : Option Token)
      → ((tok : Token) → (found ≡ some tok) ↔ IsCached c s tok)
      → (s'.sent ≡ s.sent) × (s'.server ≡ s.server)
      → let (r, s'') = found_or_fetch rt cx tc ep c ctx found s' in Outcome c s r s''
  unfolding found_or_fetch
  outcome_lem c ctx s s' (some tok) iff (still, same) = from_cache tok ((iff tok).0 refl) refl still
  outcome_lem c ctx s s' none iff (still, same) =
      let (result, asked) = fetch_and_cache_lem c ctx s' in
      fetched (present rt s').1 (λ tok h. cc ((iff tok).1 h)) same result
        (asked ∙ ap (λ l. l ++ requests rt cx tc ep c.cfg (ep.bad_url c.cfg.token_url)) still)

  -- `Token`, from the state that its first two lines leave: either the cache has a token that is valid by
  -- the margin, which is then the result, and no request is sent; or it has none, the result is that of
  -- a fetch from the same state of the endpoint, and what is sent is the token request, once, or
  -- nothing where no request can be built.
  pub token-Outcome :
      (c : Client) (ctx : Context) (s : Sys tc ep)
      → let (ctx', s1) = begin_call rt cx tc ep ctx s in
        let (r, s') = token rt cx tc ep c ctx s in Outcome c s1 r s'
  unfolding token
  token-Outcome c ctx s =
      let (ctx', s1) = begin_call rt cx tc ep ctx s in
      let (found, s2) =
        (if c.cfg.cache_read then read_cache rt cx tc ep c ctx' else pure none) s1 in
      outcome_lem c ctx' s1 s2 found
        (λ tok.
          let (there, back) = look_lem c ctx' tok c.cfg.cache_read s1 in
          (
            λ h.
                let (r, b, e, d, v) = there h in
                record { reads = r; bytes = b; is_hit = e; decoded = d; is_valid = v },
            λ i. back (i.reads, i.bytes, i.is_hit, i.decoded, i.is_valid),
          ))
        (if-IsSilent rt cx tc ep c.cfg.cache_read _ _ (read_cache-IsSilent rt cx tc ep c ctx')
          (λ s. (refl, refl)) s1)
