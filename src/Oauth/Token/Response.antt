-- ===== src/Oauth/Token/Response.antt =====
-- oauth/token.go: the token that the fields of a token response describe.
use go_library.Prelude.{
  ◌≡◌, refl, ap, ◌∙◌, String, Option, none, some, Option-cases, inl, inr, Dict, lookup, ℤ, pos,
  negsuc, ◌*◌, ◌+◌, ◌+ℤ◌, ◌==◌, string_eq, Bool-cases, if◌then◌else◌,
}
use go_library.Oauth.Codec.{Codec, Float64, Time, Duration, zero_time}
use go_library.Oauth.Token.{
  text_or_empty, Field, text, float, json_number, other, Token, parse_token_response, numeric_field,
  issued_time, lifetime,
}

-- A field of text has this text, and a field of another kind, or none, stands for "".
abbrev pub IsText : Option Field → String → Type 0
IsText none s = s ≡ ""
IsText (some (text t)) s = s ≡ t
IsText (some (float f)) s = s ≡ ""
IsText (some (json_number n)) s = s ≡ ""
IsText (some other) s = s ≡ ""

module _ (cx : Codec) where
  -- The lifetime that a number of seconds gives, and the default without one.
  abbrev pub LastsSeconds : Duration → Option Float64 → Duration → Type 0
  LastsSeconds ttl none d = d ≡ ttl
  LastsSeconds ttl (some f) d = d ≡ cx.duration_of_seconds f

  -- The lifetime that the field "expires_in" gives: a number, or a text that reads as one.
  abbrev pub Lasts : Duration → Option Field → Duration → Type 0
  Lasts ttl none d = d ≡ ttl
  Lasts ttl (some (float f)) d = d ≡ cx.duration_of_seconds f
  Lasts ttl (some (json_number n)) d = LastsSeconds ttl (cx.parse_float n) d
  Lasts ttl (some (text s)) d = LastsSeconds ttl (cx.parse_float s) d
  Lasts ttl (some other) d = d ≡ ttl

  -- The time of a text of milliseconds, and the zero time for any other text.
  abbrev pub IssuedMillis : Option ℤ → Time → Type 0
  IssuedMillis none t = t ≡ zero_time
  IssuedMillis (some (pos n)) t = t ≡ pos (n * 1000000)
  IssuedMillis (some (negsuc n)) t = t ≡ negsuc ((n * 1000000) + 999999)

  abbrev pub Issued : String → Time → Type 0
  Issued s t = if s == "" then (t ≡ zero_time) else IssuedMillis (cx.parse_int s) t

  -- The token has the texts of the response, expires when the lifetime of the response, or else the
  -- default, has passed from now on, and keeps the fields.
  pub record Describes (fields : Dict Field) (now : Time) (ttl : Duration) (tok : Token)
      : Type 0 where
    pub access_token : IsText (lookup "access_token" fields) tok.access_token
    pub token_type : IsText (lookup "token_type" fields) tok.token_type
    pub scope : IsText (lookup "scope" fields) tok.scope
    pub instance_url : IsText (lookup "instance_url" fields) tok.instance_url
    pub lasts : Duration
    pub lifetime : Lasts ttl (lookup "expires_in" fields) lasts
    pub expires_at : tok.expires_at ≡ now +ℤ lasts
    pub issued : String
    pub issued_text : IsText (lookup "issued_at" fields) issued
    pub issued_at : Issued issued tok.issued_at
    pub raw : tok.raw ≡ fields

  IsText-text_or_empty : (o : Option Field) → IsText o (text_or_empty o)
  IsText-text_or_empty none = refl
  IsText-text_or_empty (some (text t)) = refl
  IsText-text_or_empty (some (float f)) = refl
  IsText-text_or_empty (some (json_number n)) = refl
  IsText-text_or_empty (some other) = refl

  IsText_lem : (o : Option Field) (s : String) → IsText o s → s ≡ text_or_empty o
  IsText_lem none s h = h
  IsText_lem (some (text t)) s h = h
  IsText_lem (some (float f)) s h = h
  IsText_lem (some (json_number n)) s h = h
  IsText_lem (some other) s h = h

  LastsSeconds-lifetime :
      (ttl : Duration) (o : Option Float64) → LastsSeconds ttl o (lifetime cx o ttl)
  unfolding lifetime
  LastsSeconds-lifetime ttl none = refl
  LastsSeconds-lifetime ttl (some f) = refl

  LastsSeconds_lem :
      (ttl : Duration) (o : Option Float64) (d : Duration)
      → LastsSeconds ttl o d
      → d ≡ lifetime cx o ttl
  unfolding lifetime
  LastsSeconds_lem ttl none d h = h
  LastsSeconds_lem ttl (some f) d h = h

  Lasts-lifetime :
      (ttl : Duration) (o : Option Field) → Lasts ttl o (lifetime cx (numeric_field cx o) ttl)
  unfolding lifetime numeric_field
  Lasts-lifetime ttl none = refl
  Lasts-lifetime ttl (some (float f)) = refl
  Lasts-lifetime ttl (some (json_number n)) = LastsSeconds-lifetime ttl (cx.parse_float n)
  Lasts-lifetime ttl (some (text s)) = LastsSeconds-lifetime ttl (cx.parse_float s)
  Lasts-lifetime ttl (some other) = refl

  Lasts_lem :
      (ttl : Duration) (o : Option Field) (d : Duration)
      → Lasts ttl o d
      → d ≡ lifetime cx (numeric_field cx o) ttl
  unfolding lifetime numeric_field
  Lasts_lem ttl none d h = h
  Lasts_lem ttl (some (float f)) d h = h
  Lasts_lem ttl (some (json_number n)) d h = LastsSeconds_lem ttl (cx.parse_float n) d h
  Lasts_lem ttl (some (text s)) d h = LastsSeconds_lem ttl (cx.parse_float s) d h
  Lasts_lem ttl (some other) d h = h

  millis_of : Option ℤ → Time
  millis_of none = zero_time
  millis_of (some (pos n)) = pos (n * 1000000)
  millis_of (some (negsuc n)) = negsuc ((n * 1000000) + 999999)

  issued_time_lem :
      (s : String) → issued_time cx s ≡ (if s == "" then zero_time else millis_of (cx.parse_int s))
  unfolding issued_time millis_of
  issued_time_lem s = elim (Option-cases (cx.parse_int s)) [
    | inl e ↦ rw e refl
    | inr (pos n, e) ↦ rw e refl
    | inr (negsuc n, e) ↦ rw e refl
  ]

  IssuedMillis-millis_of : (o : Option ℤ) → IssuedMillis o (millis_of o)
  unfolding millis_of
  IssuedMillis-millis_of none = refl
  IssuedMillis-millis_of (some (pos n)) = refl
  IssuedMillis-millis_of (some (negsuc n)) = refl

  IssuedMillis_lem : (o : Option ℤ) (t : Time) → IssuedMillis o t → t ≡ millis_of o
  unfolding millis_of
  IssuedMillis_lem none t h = h
  IssuedMillis_lem (some (pos n)) t h = h
  IssuedMillis_lem (some (negsuc n)) t h = h

  Issued-issued_time : (s : String) → Issued s (issued_time cx s)
  Issued-issued_time s = elim (Bool-cases (s == "")) [
    | inl e ↦ rw (issued_time_lem s, e) refl
    | inr e ↦ rw (issued_time_lem s, e) (IssuedMillis-millis_of (cx.parse_int s))
  ]

  Issued_lem : (s : String) (t : Time) → Issued s t → t ≡ issued_time cx s
  Issued_lem s t h = elim (Bool-cases (s == "")) [
    | inl e ↦ let z : t ≡ zero_time = rw e at h in rw (issued_time_lem s, e) z
    | inr e ↦
        let z : IssuedMillis (cx.parse_int s) t = rw e at h in
        rw (issued_time_lem s, e) (IssuedMillis_lem (cx.parse_int s) t z)
  ]

  module _ (fields : Dict Field) (now : Time) (ttl : Duration) where
    pub parse_token_response-Describes :
        Describes fields now ttl (parse_token_response cx fields now ttl)
    unfolding parse_token_response
    parse_token_response-Describes = record {
      access_token = IsText-text_or_empty _;
      token_type = IsText-text_or_empty _;
      scope = IsText-text_or_empty _;
      instance_url = IsText-text_or_empty _;
      lasts = lifetime cx (numeric_field cx (lookup "expires_in" fields)) ttl;
      lifetime = Lasts-lifetime ttl _;
      expires_at = refl;
      issued = text_or_empty (lookup "issued_at" fields);
      issued_text = IsText-text_or_empty _;
      issued_at = Issued-issued_time _;
      raw = refl;
    }

    pub Describes-parse_token_response :
        (tok : Token) → Describes fields now ttl tok → tok ≡ parse_token_response cx fields now ttl
    unfolding parse_token_response
    Describes-parse_token_response tok d =
        let a = IsText_lem _ _ d.access_token in
        let b = IsText_lem _ _ d.token_type in
        let c = IsText_lem _ _ d.scope in
        let e = IsText_lem _ _ d.instance_url in
        let x = d.expires_at ∙ ap (λ y. now +ℤ y) (Lasts_lem ttl _ d.lasts d.lifetime) in
        let i = Issued_lem _ _ d.issued_at ∙ ap (issued_time cx) (IsText_lem _ _ d.issued_text) in
        λ k. record {
          access_token = a k;
          token_type = b k;
          expires_at = x k;
          scope = c k;
          instance_url = e k;
          issued_at = i k;
          raw = d.raw k;
        }
