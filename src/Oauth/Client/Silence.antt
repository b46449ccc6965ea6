-- ===== src/Oauth/Client/Silence.antt =====
-- oauth/client.go: the steps of a client's methods that send nothing, and the one that does.
use go_library.Prelude.{
  ◌≡◌, refl, sym, append-nil, String, Bool, true, false, ◌||◌, Dict, Option, none, some, List, [],
  ◌∷◌, ◌++◌, ltb, leb, if◌then◌else◌,
}
use go_library.Runtime.{Runtime}
use go_library.Logger.Context.{Context}
use go_library.Oauth.Codec.{Bytes, Codec, Time}
use go_library.Oauth.Token.{Token, Field}
use go_library.Oauth.Setup.{Config, Client}
use go_library.Oauth.Backend.{
  Got, hit, miss, failed, TokenCache, Request, Reply, no_response, unreadable, response, Endpoint,
}
use go_library.Oauth.Client.{
  Fetched, token_ok, token_error, token_valid, token_request, Sys, M, post, cache_get, parse_fields,
  parse_reply, read_reply, exchange,
}
use go_library.Oauth.Client.Methods.{
  use_entry, use_reading, read_cache, write_cache, settle, report_write,
}

module _ (rt : Runtime) (cx : Codec) (tc : TokenCache) (ep : Endpoint) where
  -- An action that sends nothing, and is none of the endpoint's.
  abbrev pub IsSilent : {A : Type 0} → M tc ep A → Type 0
  IsSilent m = (s : Sys tc ep) → ((m s).1.sent ≡ s.sent) × ((m s).1.server ≡ s.server)

  pub if-IsSilent :
      {A : Type 0} (b : Bool) (m k : M tc ep A)
      → IsSilent m
      → IsSilent k
      → IsSilent (if b then m else k)
  if-IsSilent true m k x y = x
  if-IsSilent false m k x y = y

  pub parse_fields-IsSilent :
      (cfg : Config) (body : Bytes) (raw : Option (Dict Field))
      → IsSilent (parse_fields rt cx tc ep cfg body raw)
  unfolding parse_fields
  parse_fields-IsSilent cfg body none s = (refl, refl)
  parse_fields-IsSilent cfg body (some raw) s = (refl, refl)

  pub read_reply-IsSilent : (cfg : Config) (r : Reply) → IsSilent (read_reply rt cx tc ep cfg r)
  unfolding read_reply parse_reply
  read_reply-IsSilent cfg (no_response e) s = (refl, refl)
  read_reply-IsSilent cfg (unreadable e) s = (refl, refl)
  read_reply-IsSilent cfg (response status body) s =
      if-IsSilent (ltb status 200 || leb 300 status) _ _ (λ s. (refl, refl))
        (parse_fields-IsSilent cfg _ _) s

  -- The token request, unless the address is none that a request can be built for.
  abbrev pub requests : Config → Option String → List Request
  requests cfg none = token_request cfg ∷ []
  requests cfg (some e) = []

  pub exchange-sent :
      (cfg : Config) (bad : Option String) (s : Sys tc ep)
      → (exchange rt cx tc ep cfg bad s).1.sent ≡ s.sent ++ requests cfg bad
  unfolding exchange
  exchange-sent cfg none s =
      let (r, s') = post (token_request cfg) s in (read_reply-IsSilent cfg r s').0
  exchange-sent cfg (some e) s = sym (append-nil s.sent)

  pub report_write-IsSilent :
      (c : Client) (ctx : Context) (e : Option String) → IsSilent (report_write rt cx tc ep c ctx e)
  unfolding report_write
  report_write-IsSilent c ctx none s = (refl, refl)
  report_write-IsSilent c ctx (some e) s = (refl, refl)

  pub settle_lem :
      (c : Client) (ctx : Context) (start : Time) (f : Fetched) (s : Sys tc ep)
      → ((settle rt cx tc ep c ctx start f s).0 ≡ f)
        × ((settle rt cx tc ep c ctx start f s).1.sent ≡ s.sent)
        × ((settle rt cx tc ep c ctx start f s).1.server ≡ s.server)
  unfolding settle write_cache
  settle_lem c ctx start (token_error e) s = (refl, refl, refl)
  settle_lem c ctx start (token_ok tok) s =
      let (x, y) =
        if-IsSilent c.cfg.cache_write _ _ (λ s. report_write-IsSilent c ctx _ _) (λ s. (refl, refl))
          _ in
      (refl, x, y)

  pub use_entry-IsSilent :
      (c : Client) (ctx : Context) (bytes : Bytes) (t : Option Token)
      → IsSilent (use_entry rt cx tc ep c ctx bytes t)
  unfolding use_entry
  use_entry-IsSilent c ctx bytes none s = (refl, refl)
  use_entry-IsSilent c ctx bytes (some tok) s =
      if-IsSilent (token_valid c.cfg.expiry_margin _ tok) _ _ (λ s. (refl, refl))
        (λ s. (refl, refl)) _

  pub use_reading-IsSilent :
      (c : Client) (ctx : Context) (g : Got) → IsSilent (use_reading rt cx tc ep c ctx g)
  unfolding use_reading
  use_reading-IsSilent c ctx (hit bytes) s = use_entry-IsSilent c ctx bytes _ s
  use_reading-IsSilent c ctx (miss e) s = (refl, refl)
  use_reading-IsSilent c ctx (failed e) s = (refl, refl)

  pub read_cache-IsSilent : (c : Client) (ctx : Context) → IsSilent (read_cache rt cx tc ep c ctx)
  unfolding read_cache
  read_cache-IsSilent c ctx s =
      let (g, s') = cache_get c.cfg.cache_key s in use_reading-IsSilent c ctx g s'
