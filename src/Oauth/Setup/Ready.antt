-- ===== src/Oauth/Setup/Ready.antt =====
-- oauth/oauth.go: which configurations make a client, and what the client can rely on.
use go_library.Prelude.{
  ◌≡◌, sym, ap, ◌∙◌, ◌≢◌, ◌↔◌, ◌⊎◌, inl, inr, String, Bool, true, false, not, ◌&&◌, ◌||◌, arith,
  pos, Bool-cases, ◌==◌, string_eq, eq_iff, if◌then◌else◌,
}
use go_library.Logger.State.{Logger}
use go_library.Oauth.Codec.{Codec, int_eq}
use go_library.Oauth.Setup.{
  Config, Client, NewResult, client, refused, grant_salesforce_password, grant_client_credentials,
  HttpClient, nil_client, default_client, new, with_grant, with_defaults,
}

-- What `New` asks for.
pub record IsComplete (cfg : Config) : Type 0 where
  pub url : cfg.token_url ≢ ""
  pub id : cfg.client_id ≢ ""
  pub secret : cfg.client_secret ≢ ""
  pub user : cfg.grant_type ≡ grant_salesforce_password → (cfg.username ≢ "") × (cfg.password ≢ "")
  pub cache : (cfg.cache_read ≡ true) ⊎ (cfg.cache_write ≡ true) → cfg.has_cache ≡ true

-- What the methods of a client can rely on.
pub record IsReady (cfg : Config) : Type 0 where
  pub complete : IsComplete cfg
  pub grant : cfg.grant_type ≢ ""
  pub http : cfg.http_client ≢ nil_client
  pub margin : cfg.expiry_margin ≢ pos 0
  pub ttl : cfg.default_ttl ≢ pos 0

-- The checks, as one test.
abbrev complete : Config → Bool
complete cfg =
    not (cfg.token_url == "")
    && not (cfg.client_id == "")
    && not (cfg.client_secret == "")
    && not
        (cfg.grant_type == grant_salesforce_password && (cfg.username == "" || cfg.password == ""))
    && not ((cfg.cache_read || cfg.cache_write) && not cfg.has_cache)

complete_sound : (cfg : Config) → complete cfg ≡ true → IsComplete cfg
complete_sound cfg h = record {
  url = ground (arith, eq_iff cfg.token_url "");
  id = ground (arith, eq_iff cfg.client_id "");
  secret = ground (arith, eq_iff cfg.client_secret "");
  user = λ e.
      ground
        (arith, eq_iff cfg.grant_type "password", eq_iff cfg.username "", eq_iff cfg.password "");
  cache = λ e. ground arith;
}

complete_complete : (cfg : Config) → IsComplete cfg → complete cfg ≡ true
complete_complete cfg c =
    let a = c.url in
    let b = c.id in
    let d = c.secret in
    let u = c.user in
    let k = c.cache in
    ground (
      arith,
      eq_iff cfg.token_url "",
      eq_iff cfg.client_id "",
      eq_iff cfg.client_secret "",
      eq_iff cfg.grant_type "password",
      eq_iff cfg.username "",
      eq_iff cfg.password "",
    )

abbrev is_client : NewResult → Bool
is_client (client c) = true
is_client (refused e) = false

settled : String → String
settled g = if g == "" then grant_client_credentials else g

settled-ne-nil : (g : String) → settled g ≢ ""
unfolding settled
settled-ne-nil g e = elim (Bool-cases (g == "")) [
  | inl q ↦ cc ((string_eq.agree_iff grant_client_credentials "").1 (rw q at e))
  | inr q ↦ cc ((string_eq.agree_iff g "").1 (rw q at e))
]

settled-password :
    (g : String) → (settled g == grant_salesforce_password) ≡ (g == grant_salesforce_password)
unfolding settled
settled-password g = elim (Bool-cases (g == "")) [
  | inl q ↦ rw ((string_eq.agree_iff g "").0 q)
  | inr q ↦ rw q
]

-- The default of the grant type changes no check.
complete-with_grant : (cfg : Config) → complete (with_grant cfg) ≡ complete cfg
unfolding with_grant settled
complete-with_grant cfg = rw (settled-password cfg.grant_type)

new-is_client :
    (cx : Codec) (base : Logger) (cfg : Config)
    → is_client (new cx base cfg) ≡ complete (with_grant cfg)
unfolding new with_grant
new-is_client cx base cfg = ground arith

new_accepts :
    (cx : Codec) (base : Logger) (cfg : Config)
    → complete (with_grant cfg) ≡ true
    → new cx base cfg ≡ client (record { cfg = with_defaults cx (with_grant cfg); base = base })
unfolding new with_grant
new_accepts cx base cfg h = ground arith

client-injective : {a b : Client} → client a ≡ client b → a ≡ b
client-injective h = cc

-- `New` makes a client of a configuration exactly if it is complete.
pub new-client_iff :
    (cx : Codec) (base : Logger) (cfg : Config)
    → ((c : Client) × (new cx base cfg ≡ client c)) ↔ IsComplete cfg
new-client_iff cx base cfg = (
  λ (c, e).
      complete_sound cfg
        (sym (new-is_client cx base cfg ∙ complete-with_grant cfg) ∙ ap is_client e),
  λ k. (_, new_accepts cx base cfg (complete-with_grant cfg ∙ complete_complete cfg k)),
)

with_defaults-IsComplete :
    (cx : Codec) (cfg : Config) → IsComplete cfg → IsComplete (with_defaults cx cfg)
unfolding with_defaults
with_defaults-IsComplete cx cfg k = record {
  url = k.url;
  id = k.id;
  secret = k.secret;
  user = k.user;
  cache = k.cache;
}

with_grant-IsComplete : (cfg : Config) → IsComplete cfg → IsComplete (with_grant cfg)
with_grant-IsComplete cfg k =
    complete_sound (with_grant cfg) (complete-with_grant cfg ∙ complete_complete cfg k)

default_client-ne-nil : (h : HttpClient) → default_client h ≢ nil_client
default_client-ne-nil nil_client e = cc
default_client-ne-nil _ e = cc

defaults-IsReady :
    (cx : Codec) (cfg : Config) → IsComplete cfg → IsReady (with_defaults cx (with_grant cfg))
unfolding with_defaults with_grant settled
defaults-IsReady cx cfg k = record {
  complete = with_defaults-IsComplete cx (with_grant cfg) (with_grant-IsComplete cfg k);
  grant = settled-ne-nil cfg.grant_type;
  http = default_client-ne-nil cfg.http_client;
  margin = ground arith;
  ttl = ground arith;
}

-- The client that `New` makes.
pub new-with_defaults :
    (cx : Codec) (base : Logger) (cfg : Config) {c : Client}
    → new cx base cfg ≡ client c
    → record { cfg = with_defaults cx (with_grant cfg); base = base } ≡ c
new-with_defaults cx base cfg {c} h =
    let k = (new-client_iff cx base cfg).0 (c, h) in
    client-injective
      (sym (new_accepts cx base cfg (complete-with_grant cfg ∙ complete_complete cfg k)) ∙ h)

-- The configuration of a client is ready for its methods, whatever it was made from: complete, with
-- a grant type and an HTTP client, and with a margin and a lifetime other than 0.
pub new-IsReady :
    (cx : Codec) (base : Logger) (cfg : Config) {c : Client}
    → new cx base cfg ≡ client c
    → IsReady c.cfg
new-IsReady cx base cfg {c} h =
    rw (← new-with_defaults cx base cfg h)
      (defaults-IsReady cx cfg ((new-client_iff cx base cfg).0 (c, h)))

-- What `New` may answer: a client whose configuration is ready, of one that is complete, or a refusal of
-- one that is not.
abbrev pub Decides : Config → NewResult → Type 0
Decides cfg (client c) = IsComplete cfg × IsReady c.cfg
Decides cfg (refused e) = ¬ IsComplete cfg
