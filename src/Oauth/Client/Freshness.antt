-- ===== src/Oauth/Client/Freshness.antt =====
-- oauth/client.go and oauth/token.go: how long a token is used, and how long it is cached.
use go_library.Prelude.{
  pos, negsuc, ◌≡◌, ◌≢◌, ◌↔◌, ◌+ℤ◌, ◌-ℤ◌, ◌≤ℤ◌, ◌<ℤ◌, +ℤ_parts, -ℤ_parts, eq_of_parts, true, arith,
  eq_iff, string_eq, some,
}
use go_library.Oauth.Codec.{
  Time, Duration, IsInt64, zero_time, unix_seconds, unix_time, int_eq, sub_duration, until,
}
use go_library.Oauth.Token.{Token, valid}
use go_library.Oauth.Token.RoundTrip.{cached_time, cached_view}
use go_library.Oauth.Setup.{Config}
use go_library.Oauth.Client.{token_valid, cache_ttl}

-- A token that is used now, ahead of its expiry by the margin, is still valid at every time up to the
-- margin from now.
pub token_valid-valid :
    (margin : Duration) (now t : Time) (tok : Token)
    → token_valid margin now tok ≡ true
    → t ≤ℤ now +ℤ margin
    → valid t (some tok) ≡ true
unfolding token_valid valid
token_valid-valid margin now t tok h le =
    ground (arith, +ℤ_parts now margin, eq_iff tok.access_token "")

until_exact : (now t : Time) → IsInt64 (t -ℤ now) → until now t ≡ t -ℤ now
unfolding until
until_exact now t (low, high) = ground (arith, -ℤ_parts t now)

sub_duration_exact : (a b : Duration) → IsInt64 (a -ℤ b) → sub_duration a b ≡ a -ℤ b
unfolding sub_duration
sub_duration_exact a b (low, high) = ground (arith, -ℤ_parts a b)

-- A lifetime for the cache is positive whatever the token, for a positive default. A token that has an
-- expiry, which lies no further ahead than the margin, and no further from now than an int64 of
-- nanoseconds, before and after the margin is taken off, is cached for a second.
pub cache_ttl_pos :
    (cfg : Config) (now : Time) (tok : Token)
    → pos 0 <ℤ cfg.default_ttl
    → (pos 0 <ℤ cache_ttl cfg now tok)
      × (tok.expires_at ≢ zero_time
          → IsInt64 (tok.expires_at -ℤ now)
          → IsInt64 (tok.expires_at -ℤ now -ℤ cfg.expiry_margin)
          → tok.expires_at ≤ℤ now +ℤ cfg.expiry_margin
          → cache_ttl cfg now tok ≡ pos 1000000000)
unfolding cache_ttl
cache_ttl_pos cfg now tok h = (
  ground arith,
  λ x i k le.
      rw
        (
          until_exact now tok.expires_at i,
          sub_duration_exact (tok.expires_at -ℤ now) cfg.expiry_margin k,
        )
        (ground (
          arith,
          eq_of_parts tok.expires_at zero_time,
          -ℤ_parts tok.expires_at now,
          -ℤ_parts (tok.expires_at -ℤ now) cfg.expiry_margin,
          +ℤ_parts now cfg.expiry_margin,
        )),
)

module _ (cfg : Config) (now : Time) (tok : Token) where
  -- The remaining lifetime is in the range of a duration, and exceeds the margin.
  pub record IsLongLived : Type 0 where
    pub expires : tok.expires_at ≢ zero_time
    pub in_range : IsInt64 (tok.expires_at -ℤ now)
    pub margin : pos 0 ≤ℤ cfg.expiry_margin
    pub exceeds : now +ℤ cfg.expiry_margin <ℤ tok.expires_at

  module _ (l : IsLongLived) where
    sub_duration_lem :
        sub_duration (tok.expires_at -ℤ now) cfg.expiry_margin
        ≡ tok.expires_at -ℤ now -ℤ cfg.expiry_margin
    unfolding sub_duration
    sub_duration_lem =
        let (low, high) = l.in_range in
        let m = l.margin in
        let e = l.exceeds in
        ground (
          arith,
          -ℤ_parts tok.expires_at now,
          -ℤ_parts (tok.expires_at -ℤ now) cfg.expiry_margin,
          +ℤ_parts now cfg.expiry_margin,
        )

    cache_ttl_lem : cache_ttl cfg now tok ≡ tok.expires_at -ℤ now -ℤ cfg.expiry_margin
    unfolding cache_ttl
    cache_ttl_lem =
        let e = l.exceeds in
        let m = l.margin in
        let x = l.expires in
        rw (until_exact now tok.expires_at l.in_range, sub_duration_lem)
          (ground (
            arith,
            eq_of_parts tok.expires_at zero_time,
            -ℤ_parts tok.expires_at now,
            -ℤ_parts (tok.expires_at -ℤ now) cfg.expiry_margin,
            +ℤ_parts now cfg.expiry_margin,
          ))

-- A time from the first second on is kept by the cache to the second.
cached_time_bounds :
    (t : Time)
    → pos 1000000000 ≤ℤ t
    → (pos 0 <ℤ cached_time t) × (cached_time t ≤ℤ t) × (t <ℤ cached_time t +ℤ pos 1000000000)
unfolding cached_time unix_seconds unix_time ◌+ℤ◌
cached_time_bounds (pos n) h = ground arith
cached_time_bounds (negsuc n) h = absurd (omega arith)

token_valid_iff :
    (margin : Duration) (t : Time) (tok : Token)
    → tok.access_token ≢ ""
    → pos 0 <ℤ tok.expires_at
    → (t +ℤ margin <ℤ tok.expires_at) ↔ (token_valid margin t tok ≡ true)
unfolding token_valid
token_valid_iff margin t tok ne h = (
  ground (arith, eq_iff tok.access_token "", +ℤ_parts t margin),
  ground (arith, eq_iff tok.access_token "", +ℤ_parts t margin),
)

-- For a token that has an access token and an expiry, which lies ahead by more than a margin that is not
-- negative and by no more than an int64 of nanoseconds, at a present from the first second of 1970 on:
-- while the client uses the token as it comes back from the cache, the entry has not come to the end of
-- its lifetime; and up to a second before this end the client uses it. So the entry outlives its use,
-- and by a second at most.
pub cache_ttl-cached_view :
    (cfg : Config) (now : Time) (tok : Token)
    → IsLongLived cfg now tok
    → tok.access_token ≢ ""
    → pos 1000000000 ≤ℤ now
    → (t : Time)
    → let view = cached_view tok in
      let end = now +ℤ cache_ttl cfg now tok in
      (token_valid cfg.expiry_margin t view ≡ true → t <ℤ end)
      × (t +ℤ pos 1000000000 ≤ℤ end → token_valid cfg.expiry_margin t view ≡ true)
unfolding cached_view
cache_ttl-cached_view cfg now tok l ne first t =
    let m = l.margin in
    let e = l.exceeds in
    let (full, low, high) =
      cached_time_bounds tok.expires_at (omega (arith, +ℤ_parts now cfg.expiry_margin)) in
    let (uses, used) = token_valid_iff cfg.expiry_margin t (cached_view tok) ne full in
    rw (cache_ttl_lem cfg now tok l) (
      λ v.
          let u = used v in
          omega (
            arith,
            +ℤ_parts now (tok.expires_at -ℤ now -ℤ cfg.expiry_margin),
            -ℤ_parts tok.expires_at now,
            -ℤ_parts (tok.expires_at -ℤ now) cfg.expiry_margin,
            +ℤ_parts t cfg.expiry_margin,
          ),
      λ le. uses (
          omega (
            arith,
            +ℤ_parts now (tok.expires_at -ℤ now -ℤ cfg.expiry_margin),
            -ℤ_parts tok.expires_at now,
            -ℤ_parts (tok.expires_at -ℤ now) cfg.expiry_margin,
            +ℤ_parts t cfg.expiry_margin,
            +ℤ_parts t (pos 1000000000),
            +ℤ_parts (cached_time tok.expires_at) (pos 1000000000),
          )),
    )
