-- ===== src/Oauth/Token.antt =====
-- oauth/token.go: tokens, the token response, and the entry that is cached.
pub mod Entry
pub mod RoundTrip
pub mod Response
use go_library.Prelude.{
  ℕ, ◌+◌, ◌*◌, String, Bool, true, false, not, ◌&&◌, Option, none, some, List, [], ◌∷◌, ◌++◌, ℤ,
  pos, negsuc, Dict, lookup, insert, ◌+ℤ◌, ltb_ℤ, ◌==◌, string_eq, if◌then◌else◌,
}
use go_library.Oauth.Codec.{
  Bytes, Float64, Json, null, boolean, number, string, composite, Document, object, null_document,
  other_document, Codec, Time, Duration, zero_time, int_eq, unix_time, unix_seconds,
}

-- A value of the map into which a token response is decoded. A `json.Number` keeps its literal; the
-- default decoder makes a float64 of a number.
pub data Field : Type 0 where
  text : String → Field
  float : Float64 → Field
  json_number : String → Field
  other : Field

-- `Token`
pub record Token : Type 0 where
  pub access_token : String
  pub token_type : String
  pub expires_at : Time
  pub scope : String
  pub instance_url : String
  pub issued_at : Time
  pub raw : Dict Field

-- `(*Token).Valid` at the given present, and none for a nil token.
unfoldable pub valid : Time → Option Token → Bool
valid now none = false
valid now (some t) =
    if t.access_token == ""
    then false
    else if t.expires_at == zero_time
    then true
    else ltb_ℤ now t.expires_at

infixl 5 ◌>>=◌
abbrev pub ◌>>=◌ {ℓ κ} : {A : Type ℓ} {B : Type κ} → Option A → (A → Option B) → Option B
none >>= k = none
some a >>= k = k a

-- The text of a field, or "" where it is missing or no text.
abbrev pub text_or_empty : Option Field → String
text_or_empty (some (text s)) = s
text_or_empty _ = ""

-- `time.UnixMilli`
abbrev unix_milli : ℤ → Time
unix_milli (pos n) = pos (n * 1000000)
unix_milli (negsuc n) = negsuc ((n * 1000000) + 999999)

module _ (cx : Codec) where
  -- `numericField`
  unfoldable pub numeric_field : Option Field → Option Float64
  numeric_field (some (float f)) = some f
  numeric_field (some (json_number s)) = cx.parse_float s
  numeric_field (some (text s)) = cx.parse_float s
  numeric_field _ = none

  unfoldable pub issued_time : String → Time
  issued_time s =
      if s == ""
      then zero_time
      else elim (cx.parse_int s) [ none ↦ zero_time | some ms ↦ unix_milli ms ]

  unfoldable pub lifetime : Option Float64 → Duration → Duration
  lifetime none default_ttl = default_ttl
  lifetime (some secs) default_ttl = cx.duration_of_seconds secs

  -- `parseTokenResponse`
  unfoldable pub parse_token_response : Dict Field → Time → Duration → Token
  unfolding issued_time numeric_field lifetime
  parse_token_response raw now default_ttl = record {
    access_token = text_or_empty (lookup "access_token" raw);
    token_type = text_or_empty (lookup "token_type" raw);
    expires_at = now +ℤ lifetime (numeric_field (lookup "expires_in" raw)) default_ttl;
    scope = text_or_empty (lookup "scope" raw);
    instance_url = text_or_empty (lookup "instance_url" raw);
    issued_at = issued_time (text_or_empty (lookup "issued_at" raw));
    raw = raw;
  }

  -- A member of a `map[string]any`; a number out of the range of float64 is an error.
  unfoldable pub field_of : Json → Option Field
  field_of (string s) = some (text s)
  field_of (number s) = do some (float (← cx.parse_float s))
  field_of _ = some other

  unfoldable pub decode_members : List (String × Json) → Dict Field → Option (Dict Field)
  unfolding field_of
  decode_members [] m = some m
  decode_members ((k, v) ∷ ms) m = do f ← field_of v; decode_members ms (insert k f m)

  -- `json.Unmarshal` into a `map[string]any`.
  unfoldable pub decode_map : Bytes → Option (Dict Field)
  unfolding decode_members
  decode_map bytes = elim (cx.decode bytes) [
    | none ↦ none
    | some (object ms) ↦ decode_members ms []
    | some null_document ↦ some []
    | some other_document ↦ none
  ]

  -- The struct field that a decoder picks for a key: the one of that name, or else the first whose
  -- name is equal to it under case folding.
  abbrev pub exact_field : List String → String → Option String
  exact_field [] key = none
  exact_field (n ∷ ns) key = if n == key then some n else exact_field ns key

  abbrev pub folded_field : List String → String → Option String
  folded_field [] key = none
  folded_field (n ∷ ns) key = if cx.equal_fold n key then some n else folded_field ns key

  unfoldable pub struct_field : List String → String → Option String
  struct_field names key = elim (exact_field names key) [
    | some n ↦ some n
    | none ↦ folded_field names key
  ]

  -- A text for a string field: null leaves the field as it is, another value is an error.
  abbrev pub string_field : String → Json → Option String
  string_field old (string s) = some s
  string_field old null = some old
  string_field old _ = none
