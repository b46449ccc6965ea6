-- ===== src/Oauth/Errors/Preview.antt =====
-- oauth/errors.go: an error says what the endpoint said, in bounds.
use go_library.Prelude.{ℕ, ◌≤◌, ◌≡◌, ◌≢◌, some, length, ◌⊎◌, [], ◌++◌}
use go_library.Oauth.Codec.{Bytes, Codec}
use go_library.Oauth.Errors.{AuthError, ErrorFields, max_error_body_preview, unmarshal_error}

-- Of a body that decodes with an error code, the code and the description, and no body; of any other
-- body a prefix of at most 500 bytes, which is all of a body that is not longer.
abbrev pub Reports : Codec → ℕ → Bytes → AuthError → Type 0
Reports cx status body e =
    (e.status_code ≡ status)
    × (((f : ErrorFields) × (unmarshal_error cx body ≡ some f)
          × (f.error ≢ "")
          × (e.code ≡ f.error)
          × (e.description ≡ f.description)
          × (e.body ≡ []))
        ⊎ ((e.code ≡ "")
            × (e.description ≡ "")
            × (length e.body ≤ max_error_body_preview)
            × ((rest : Bytes) × (e.body ++ rest ≡ body))
            × (length body ≤ max_error_body_preview → e.body ≡ body)))
