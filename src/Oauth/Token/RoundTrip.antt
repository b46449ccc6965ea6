-- ===== src/Oauth/Token/RoundTrip.antt =====
-- oauth/token.go: what a cache entry keeps of a token.
use go_library.Prelude.{
  String, ◌≡◌, refl, ap, sym, ◌∙◌, inl, inr, Bool-cases, some, [], ◌++◌, ℤ, pos, ◌==◌, string_eq,
  if◌then◌else◌, arith,
}
use go_library.Oauth.Codec.{
  Codec, IsLawfulCodec, IsInt64, Time, zero_time, int_eq, unix_time, unix_seconds,
}
use go_library.Oauth.Token.{Token}
use go_library.Oauth.Token.Entry.{
  CacheEntry, entry_members, entry_of, marshal_cache, empty_entry, decode_entry, unmarshal_entry,
  token_of, unmarshal_cache, omit_zero, omit_empty,
}

-- The time that is left of an expiry: whole seconds, and the zero time for the second 0 too, which
-- the entry leaves out.
unfoldable pub cached_time : Time → Time
cached_time t =
    if t == zero_time
    then zero_time
    else if unix_seconds t == pos 0
    then zero_time
    else unix_time (unix_seconds t)

-- What a token is after it went through the cache.
unfoldable pub cached_view : Token → Token
unfolding cached_time
cached_view t = record t { expires_at = cached_time t.expires_at; issued_at = zero_time; raw = [] }

module _ (cx : Codec) (lawful : IsLawfulCodec cx) where
  decode_scope :
      (e : CacheEntry) (s : String)
      → e.scope ≡ ""
      → decode_entry cx (omit_empty "scope" s) e ≡ some (record e { scope = s })
  unfolding decode_entry
  decode_scope e s h = elim (Bool-cases (s == "")) [
    | inl empty ↦
        rw empty
          (ap (λ x. some (record e { scope = x })) (h ∙ sym ((string_eq.agree_iff s "").0 empty)))
    | inr full ↦ rw full
  ]

  decode_instance :
      (e : CacheEntry) (u s : String)
      → e.instance_url ≡ ""
      → e.scope ≡ ""
      → decode_entry cx (omit_empty "instanceUrl" u ++ omit_empty "scope" s) e
        ≡ some (record e { instance_url = u; scope = s })
  unfolding decode_entry
  decode_instance e u s h k = elim (Bool-cases (u == "")) [
    | inl empty ↦ rw empty (
        decode_scope e s k
        ∙ ap (λ x. some (record e { instance_url = x; scope = s }))
            (h ∙ sym ((string_eq.agree_iff u "").0 empty)))
    | inr full ↦ rw full (decode_scope (record e { instance_url = u }) s k)
  ]

  decode_rest :
      (e : CacheEntry) (n : ℤ) (u s : String)
      → IsInt64 n
      → e.expires_at ≡ pos 0
      → e.instance_url ≡ ""
      → e.scope ≡ ""
      → decode_entry cx
          (omit_zero cx "expiresAt" n ++ (omit_empty "instanceUrl" u ++ omit_empty "scope" s))
          e
        ≡ some (record e { expires_at = n; instance_url = u; scope = s })
  unfolding decode_entry
  decode_rest e n u s i z h k = elim (Bool-cases (n == pos 0)) [
    | inl zero ↦ rw zero (
        decode_instance e u s h k
        ∙ ap (λ x. some (record e { expires_at = x; instance_url = u; scope = s }))
            (z ∙ sym ((int_eq.agree_iff n (pos 0)).0 zero)))
    | inr more ↦ rw (more) (
        rw (lawful.parse_int-format_int n i)
          (decode_instance (record e { expires_at = n }) u s h k))
  ]

  unmarshal_entry-encode :
      (e : CacheEntry)
      → IsInt64 e.expires_at
      → unmarshal_entry cx (cx.encode (entry_members cx e)) ≡ some e
  unfolding unmarshal_entry entry_members
  unmarshal_entry-encode e i =
      rw (lawful.decode-encode (entry_members cx e), unmarshal_entry)
        (decode_rest
          (record empty_entry { access_token = e.access_token; token_type = e.token_type })
          e.expires_at e.instance_url e.scope i refl refl refl)

  entry_of-IsInt64 :
      (t : Token) → IsInt64 (unix_seconds t.expires_at) → IsInt64 (entry_of t).expires_at
  unfolding entry_of
  entry_of-IsInt64 t i = elim (Bool-cases (t.expires_at == zero_time)) [
    | inl z ↦ rw z (omega arith)
    | inr z ↦ rw z i
  ]

  token_of-entry_of : (t : Token) → token_of (entry_of t) ≡ cached_view t
  unfolding token_of entry_of cached_view
  token_of-entry_of t = elim (Bool-cases (t.expires_at == zero_time)) [
    | inl z ↦ rw z
    | inr z ↦ rw z
  ]

  -- An entry that is read back from the cache is the token that was written, but for the response map
  -- and the time of issue, which an entry does not hold, and with its expiry rounded down to a second
  -- (the second 0 of the epoch is read as no expiry).
  pub unmarshal_cache-marshal_cache :
      (t : Token)
      → IsInt64 (unix_seconds t.expires_at)
      → unmarshal_cache cx (marshal_cache cx t) ≡ some (cached_view t)
  unfolding unmarshal_cache marshal_cache
  unmarshal_cache-marshal_cache t i =
      rw (unmarshal_entry-encode (entry_of t) (entry_of-IsInt64 t i))
        (ap some (token_of-entry_of t))
