-- ===== src/Secrets/Parsing.antt =====
-- secrets/secrets.go: what `SecretJSON` makes of a value.
use go_library.Prelude.{
  ℕ, ◌≡◌, refl, ap, ◌∙◌, String, Option, none, some, List, [], ◌∷◌, map, Dict, lookup, insert,
  lookup-insert, ◌==◌, string_eq, if◌then◌else◌, Option-cases, inl, inr, get_elem?,
}
use go_library.Runtime.{Runtime}
use go_library.Logger.Value.{Attr}
use go_library.Logger.State.{Logger, World, now}
use go_library.Logger.Context.{Context, ensure_request_id}
use go_library.Logger.Handler.Effects.{log-Frame}
use go_library.Logger.Lifecycle.{stage}
use go_library.Oauth.Codec.{Bytes, Json, string, Codec, IsLawfulCodec}
use go_library.Secrets.{
  Answer, found, missing, failure, Source, Sys, Messages, secret_messages, load_attrs,
  secrets_manager, log_answer, begin_load, secret, members, string_members, unmarshal_strings,
  parse_answer, secret_json,
}

-- An object of texts.
abbrev pub strings : List (String × String) → List (String × Json)
strings ms = map (λ ((k, v) : String × String). (k, string v)) ms

-- The value of the last member of a name.
abbrev pub last_member : String → List (String × String) → Option String → Option String
last_member k [] v = v
last_member k ((j, x) ∷ ms) v = last_member k ms (if j == k then some x else v)

abbrev assigned : List (String × String) → Dict String → Dict String
assigned [] d = d
assigned ((j, x) ∷ ms) d = assigned ms (insert j x d)

lookup-assigned :
    (k : String) (ms : List (String × String)) (d : Dict String)
    → lookup k (assigned ms d) ≡ last_member k ms (lookup k d)
lookup-assigned k [] d = refl
lookup-assigned k ((j, x) ∷ ms) d =
    lookup-assigned k ms (insert j x d) ∙ ap (last_member k ms) (lookup-insert k j x d)

string_members-strings :
    (ms : List (String × String)) (d : Dict String)
    → string_members (strings ms) d ≡ some (assigned ms d)
unfolding string_members
string_members-strings [] d = refl
string_members-strings ((j, x) ∷ ms) d = string_members-strings ms (insert j x d)

module _ (rt : Runtime) (cx : Codec) (l : Logger) (src : Source) where
  -- With a codec that reads back what it prints, and a source that gives for the name an object of texts
  -- that the codec printed: `SecretJSON` gives a map in which every name has the value of the last member
  -- of that name, and no other name stands.
  pub secret_json-encode :
      (ctx : Context) (name : String) (s : Sys src) (ms : List (String × String))
      → IsLawfulCodec cx
      → (src.secret name s.state).0 ≡ found (cx.encode (strings ms))
      → (d : Dict String) × ((secret_json rt cx l src ctx name s).0 ≡ members d)
        × ((k : String) → lookup k d ≡ last_member k ms none)
  unfolding secret_json secret parse_answer unmarshal_strings lookup
  secret_json-encode ctx name s ms lawful e = (
    assigned ms [],
    rw (e, unmarshal_strings, lawful.decode-encode, string_members-strings ms []) refl,
    λ k. lookup-assigned k ms [],
  )

  stage-ids :
      (q : Option ℕ) (ctx : Context) (name : String) (attrs : List Attr) (w : World)
      → (stage rt q ctx name attrs w).1.ids_made ≡ w.ids_made
  unfolding stage
  stage-ids none ctx name attrs w = refl
  stage-ids (some q) ctx name attrs w = elim (Option-cases (get_elem? w.lifecycles q)) [
    | inl e ↦ rw (e, stage) refl
    | inr (lc, e) ↦ rw (e, stage) (log-Frame rt _ _ _ _ _ _).ids_made
  ]

  log_answer-ids :
      (ms : Messages) (ctx : Context) (attrs : List Attr) (more : Bytes → List Attr)
      (r : Answer Bytes) (w : World)
      → (log_answer rt l ms ctx attrs more r w).1.ids_made ≡ w.ids_made
  unfolding log_answer
  log_answer-ids ms ctx attrs more (found v) w = (log-Frame rt _ _ _ _ _ _).ids_made
  log_answer-ids ms ctx attrs more (missing e) w = (log-Frame rt _ _ _ _ _ _).ids_made
  log_answer-ids ms ctx attrs more (failure e) w = (log-Frame rt _ _ _ _ _ _).ids_made

  pub secret-ids :
      (ctx : Context) (name : String) (s : Sys src)
      → (secret rt l src ctx name s).1.world.ids_made
        ≡ (ensure_request_id rt ctx s.world).1.ids_made
  unfolding secret begin_load now
  secret-ids ctx name s =
      let (ctx', u) = begin_load rt l src ctx s in
      let (start, w1) = now rt u.world in
      let (t, w2) = now rt w1 in
      log_answer-ids secret_messages ctx' (load_attrs "secrets.name" name secrets_manager start t)
        (λ v. []) (src.secret name s.state).0 w2
      ∙ stage-ids _ _ "secrets.load" [] (ensure_request_id rt ctx s.world).1

  pub secret-found :
      (ctx : Context) (name : String) (s : Sys src) (v : Bytes)
      → (src.secret name s.state).0 ≡ found v
      → (secret rt l src ctx name s).0 ≡ found v
  unfolding secret
  secret-found ctx name s v e = e
