-- ===== src/Oauth/Errors.antt =====
-- oauth/errors.go: the error of a token endpoint.
pub mod Preview
use go_library.Prelude.{
  ℕ, String, ◌<>◌, Bool, not, ◌&&◌, Option, none, some, List, [], ◌∷◌, length, take, ltb, pos, ◌==◌,
  string_eq, if◌then◌else◌,
}
use go_library.Oauth.Codec.{Bytes, Json, Document, object, null_document, other_document, Codec}
use go_library.Oauth.Token.{◌>>=◌, struct_field, string_field}

-- `AuthError`; the body is cut by bytes, so it is a byte string.
pub record AuthError : Type 0 where
  pub status_code : ℕ
  pub code : String
  pub description : String
  pub body : Bytes

abbrev pub max_error_body_preview : ℕ
max_error_body_preview = 500

-- The struct that `parseAuthError` decodes into.
pub record ErrorFields : Type 0 where
  pub error : String
  pub description : String

module _ (cx : Codec) where
  -- `(*AuthError).Error`
  unfoldable pub error_text : AuthError → String
  error_text e =
      let start = "oauth: token request failed (" <> (cx.format_int (pos e.status_code) <> "): ") in
      if not (e.code == "") && not (e.description == "")
      then start <> (e.code <> (": " <> e.description))
      else if not (e.code == "")
      then start <> e.code
      else start <> cx.text_of e.body

  unfoldable pub set_error_named : String → Json → ErrorFields → Option ErrorFields
  set_error_named name v e =
      if name == "error"
      then (do s ← string_field cx e.error v; some (record e { error = s }))
      else (do s ← string_field cx e.description v; some (record e { description = s }))

  unfoldable pub decode_error : List (String × Json) → ErrorFields → Option ErrorFields
  unfolding set_error_named struct_field
  decode_error [] e = some e
  decode_error ((k, v) ∷ ms) e = do
    e' ← elim (struct_field cx ("error" ∷ "error_description" ∷ []) k) [
      | none ↦ some e
      | some name ↦ set_error_named name v e
    ]
    decode_error ms e'

  unfoldable pub unmarshal_error : Bytes → Option ErrorFields
  unfolding decode_error
  unmarshal_error bytes = elim (cx.decode bytes) [
    | none ↦ none
    | some (object ms) ↦ decode_error ms (record { error = ""; description = "" })
    | some null_document ↦ some (record { error = ""; description = "" })
    | some other_document ↦ none
  ]

  -- The copy of a body that is kept.
  unfoldable pub preview : Bytes → Bytes
  preview body =
      if ltb max_error_body_preview (length body) then take max_error_body_preview body else body

  unfoldable pub auth_error : ℕ → Bytes → Option ErrorFields → AuthError
  unfolding preview
  auth_error status body none = record {
    status_code = status;
    code = "";
    description = "";
    body = preview body;
  }
  auth_error status body (some e) =
      if e.error == ""
      then record { status_code = status; code = ""; description = ""; body = preview body }
      else record { status_code = status; code = e.error; description = e.description; body = [] }

  -- `parseAuthError`
  unfoldable pub parse_auth_error : ℕ → Bytes → AuthError
  unfolding auth_error unmarshal_error
  parse_auth_error status body = auth_error status body (unmarshal_error body)
