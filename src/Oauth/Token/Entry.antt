-- ===== src/Oauth/Token/Entry.antt =====
-- oauth/token.go: `cacheEntry` and its JSON form.
use go_library.Prelude.{
  String, Option, none, some, List, [], ◌∷◌, ◌++◌, ℤ, pos, ◌==◌, string_eq, if◌then◌else◌,
}
use go_library.Oauth.Codec.{
  Bytes, Json, null, number, string, object, null_document, other_document, Codec, zero_time,
  int_eq, unix_time, unix_seconds,
}
use go_library.Oauth.Token.{Token, ◌>>=◌, struct_field, string_field}

-- `cacheEntry`
pub record CacheEntry : Type 0 where
  pub access_token : String
  pub token_type : String
  pub expires_at : ℤ
  pub instance_url : String
  pub scope : String

-- A member with `omitempty`.
abbrev pub omit_empty : String → String → List (String × Json)
omit_empty key s = if s == "" then [] else (key, string s) ∷ []

unfoldable pub entry_of : Token → CacheEntry
entry_of t = record {
  access_token = t.access_token;
  token_type = t.token_type;
  expires_at = if t.expires_at == zero_time then pos 0 else unix_seconds t.expires_at;
  instance_url = t.instance_url;
  scope = t.scope;
}

abbrev pub empty_entry : CacheEntry
empty_entry = record {
  access_token = "";
  token_type = "";
  expires_at = pos 0;
  instance_url = "";
  scope = "";
}

abbrev pub entry_names : List String
entry_names = "accessToken" ∷ "tokenType" ∷ "expiresAt" ∷ "instanceUrl" ∷ "scope" ∷ []

unfoldable pub token_of : CacheEntry → Token
token_of e = record {
  access_token = e.access_token;
  token_type = e.token_type;
  expires_at = if e.expires_at == pos 0 then zero_time else unix_time e.expires_at;
  scope = e.scope;
  instance_url = e.instance_url;
  issued_at = zero_time;
  raw = [];
}

module _ (cx : Codec) where
  abbrev pub omit_zero : String → ℤ → List (String × Json)
  omit_zero key n = if n == pos 0 then [] else (key, number (cx.format_int n)) ∷ []

  -- The members of an entry, in the order of the struct.
  unfoldable pub entry_members : CacheEntry → List (String × Json)
  entry_members e =
      ("accessToken", string e.access_token)
        ∷ ("tokenType", string e.token_type)
        ∷ omit_zero "expiresAt" e.expires_at
      ++ (omit_empty "instanceUrl" e.instance_url ++ omit_empty "scope" e.scope)

  -- `marshalCache`; printing a struct of texts and an integer does not fail.
  unfoldable pub marshal_cache : Token → Bytes
  unfolding entry_members entry_of
  marshal_cache t = cx.encode (entry_members (entry_of t))

  abbrev pub int_field : ℤ → Json → Option ℤ
  int_field old (number s) = cx.parse_int s
  int_field old null = some old
  int_field old _ = none

  -- One member of the text, written over the struct field of its name.
  unfoldable pub set_named : String → Json → CacheEntry → Option CacheEntry
  set_named name v e =
      if name == "accessToken"
      then (do s ← string_field cx e.access_token v; some (record e { access_token = s }))
      else if name == "tokenType"
      then (do s ← string_field cx e.token_type v; some (record e { token_type = s }))
      else if name == "expiresAt"
      then (do n ← int_field e.expires_at v; some (record e { expires_at = n }))
      else if name == "instanceUrl"
      then (do s ← string_field cx e.instance_url v; some (record e { instance_url = s }))
      else (do s ← string_field cx e.scope v; some (record e { scope = s }))

  unfoldable pub set_member : String → Json → CacheEntry → Option CacheEntry
  unfolding set_named struct_field
  set_member key v e = elim (struct_field cx entry_names key) [
    | none ↦ some e
    | some name ↦ set_named name v e
  ]

  unfoldable pub decode_entry : List (String × Json) → CacheEntry → Option CacheEntry
  unfolding set_member
  decode_entry [] e = some e
  decode_entry ((k, v) ∷ ms) e = do e' ← set_member k v e; decode_entry ms e'

  -- `json.Unmarshal` into a `cacheEntry`.
  unfoldable pub unmarshal_entry : Bytes → Option CacheEntry
  unfolding decode_entry
  unmarshal_entry bytes = elim (cx.decode bytes) [
    | none ↦ none
    | some (object ms) ↦ decode_entry ms empty_entry
    | some null_document ↦ some empty_entry
    | some other_document ↦ none
  ]

  -- `unmarshalCache`
  unfoldable pub unmarshal_cache : Bytes → Option Token
  unfolding unmarshal_entry token_of
  unmarshal_cache bytes = do some (token_of (← unmarshal_entry bytes))
