-- ===== src/Oauth/Client/Form.antt =====
-- oauth/client.go: the form of the token request.
use go_library.Prelude.{
  ◌≡◌, refl, sym, ap, ◌∙◌, String, Bool-cases, inl, inr, Option, none, some, [], ◌∷◌, Dict, lookup,
  insert, lookup-insert, ◌==◌, string_eq,
}
use go_library.Oauth.Setup.{Config}
use go_library.Oauth.Client.{grant_form, add_params, base_form, token_form}

-- The entries of a map: no key stands twice.
unfoldable pub IsMap {ℓ} : {A : Type ℓ} → Dict A → Type ℓ
unfolding lookup
IsMap [] = Unit
IsMap ((k, v) ∷ d) = (lookup k d ≡ none) × IsMap d

abbrev pub or_else {ℓ} : {A : Type ℓ} → Option A → Option A → Option A
or_else (some a) o = some a
or_else none o = o

add_params_lem :
    (k : String) (ps form : Dict String)
    → IsMap ps
    → lookup k (add_params ps form) ≡ or_else (lookup k ps) (lookup k form)
unfolding add_params lookup IsMap
add_params_lem k [] form m = refl
add_params_lem k ((k', v) ∷ ps) form (absent, m) =
    let step =
      add_params_lem k ps (insert k' v form) m
      ∙ ap (or_else (lookup k ps)) (lookup-insert k k' v form) in
    elim (Bool-cases (k' == k)) [
      | inl same ↦
          let missing : lookup k ps ≡ none =
            ap (λ x. lookup x ps) (sym ((string_eq.agree_iff k' k).0 same)) ∙ absent in
          step ∙ rw (same, missing) refl
      | inr other ↦ step ∙ rw other refl
    ]

-- For extra parameters in which no key stands twice: of the token request each field has the value of `ExtraParams`, where that has one, or else that of
-- the grant.
pub lookup-token_form :
    (cfg : Config) (k : String)
    → IsMap cfg.extra_params
    → lookup k (token_form cfg)
      ≡ or_else (lookup k cfg.extra_params) (lookup k (grant_form cfg (base_form cfg)))
unfolding token_form
lookup-token_form cfg k m = add_params_lem k cfg.extra_params _ m
