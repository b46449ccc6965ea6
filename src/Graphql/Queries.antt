-- ===== src/Graphql/Queries.antt =====
-- graphql/logger.go: what is logged of a query and of the variables.
use go_library.Prelude.{
  ℕ, ℤ, ◌+◌, ◌≤◌, ◌<◌, ◌≡◌, refl, ap, sym, ◌∙◌, String, Bool, true, false, Bool-cases, inl, inr,
  Option, List, [], ◌∷◌, ◌++◌, map, length, take, leb, leb→le, arith, length-take, length-append,
  append-nil, not, ◌&&◌, append_assoc, if◌then◌else◌,
}
use go_library.Runtime.{Runtime}
use go_library.GoText.{to_lower}
use go_library.Logger.Value.{Members, end, member, dict, any}
use go_library.Logger.Redact.{Redactor, new_redactor, redact_map}
use go_library.Logger.Redact.Leaves.{map_leaves, IsRedacted}
use go_library.Logger.Redact.Soundness.{redact_map-IsRedacted}
use go_library.Logger.State
use go_library.Oauth.Codec.{Bytes}
use go_library.Graphql.{
  Logger, Setting, with_variables, with_redacted_variables, with_max_query_length, apply_settings,
  fresh, new, ellipsis, truncate, variables_attrs, redact_variables,
}

-- A text within the limit stays whole, and a longer one is cut there, with the mark behind it.
pub truncate_bounds :
    (s : Bytes) (n : ℕ)
    → (length (truncate s n) ≤ n + 14)
      × (length s ≤ n → truncate s n ≡ s)
      × (n < length s → truncate s n ≡ take n s ++ ellipsis)
unfolding truncate
truncate_bounds s n = elim (Bool-cases (leb (length s) n)) [
  | inl short ↦
      rw short
        (omega (arith, leb→le _ _ short), λ h. refl, λ h. absurd (omega (arith, leb→le _ _ short)))
  | inr long ↦ rw long (
    omega (arith, length-append (take n s) ellipsis, length-take n s),
    λ h. absurd (ground arith),
    λ h. refl,
  )
]

-- The names that the settings redact, in their order, and whether they log variables.
abbrev pub names_of : List Setting → List String
names_of [] = []
names_of (with_redacted_variables names ∷ ss) = names ++ names_of ss
names_of (with_variables on ∷ ss) = names_of ss
names_of (with_max_query_length n ∷ ss) = names_of ss

abbrev pub logs_variables : Bool → List Setting → Bool
logs_variables on [] = on
logs_variables on (with_redacted_variables names ∷ ss) = logs_variables on ss
logs_variables on (with_variables on' ∷ ss) = logs_variables on' ss
logs_variables on (with_max_query_length n ∷ ss) = logs_variables on ss

-- The limit of the query that the settings leave: the last one.
abbrev pub limit_of : ℤ → List Setting → ℤ
limit_of n [] = n
limit_of n (with_redacted_variables names ∷ ss) = limit_of n ss
limit_of n (with_variables on ∷ ss) = limit_of n ss
limit_of n (with_max_query_length n' ∷ ss) = limit_of n' ss

pub max_query_len-apply_settings :
    (ss : List Setting) (l : Logger)
    → (apply_settings ss l).max_query_len ≡ limit_of l.max_query_len ss
unfolding apply_settings
max_query_len-apply_settings [] l = refl
max_query_len-apply_settings (with_variables on ∷ ss) l = max_query_len-apply_settings ss _
max_query_len-apply_settings (with_redacted_variables names ∷ ss) l =
    max_query_len-apply_settings ss _
max_query_len-apply_settings (with_max_query_length n ∷ ss) l = max_query_len-apply_settings ss _

redact_names-apply_settings :
    (ss : List Setting) (l : Logger)
    → (apply_settings ss l).redact_names ≡ l.redact_names ++ names_of ss
unfolding apply_settings
redact_names-apply_settings [] l = sym (append-nil l.redact_names)
redact_names-apply_settings (with_variables on ∷ ss) l = redact_names-apply_settings ss _
redact_names-apply_settings (with_redacted_variables names ∷ ss) l =
    redact_names-apply_settings ss _ ∙ append_assoc l.redact_names names (names_of ss)
redact_names-apply_settings (with_max_query_length n ∷ ss) l = redact_names-apply_settings ss _

log_variables-apply_settings :
    (ss : List Setting) (l : Logger)
    → (apply_settings ss l).log_variables ≡ logs_variables l.log_variables ss
unfolding apply_settings
log_variables-apply_settings [] l = refl
log_variables-apply_settings (with_variables on ∷ ss) l = log_variables-apply_settings ss _
log_variables-apply_settings (with_redacted_variables names ∷ ss) l =
    log_variables-apply_settings ss _
log_variables-apply_settings (with_max_query_length n ∷ ss) l = log_variables-apply_settings ss _

abbrev pub is_empty : Members → Bool
is_empty end = true
is_empty (member k v m) = false

module _ (rt : Runtime) where
  -- What may be logged of variables: with no names to redact, the variables as they are; otherwise,
  -- place by place, the placeholder for whatever stands under one of these names, and what stood there
  -- elsewhere.
  abbrev pub Hides : List String → Members → Members → Type 0
  Hides [] m m' = m' ≡ m
  Hides (n ∷ ns) m m' =
      IsRedacted rt (record { keys = map (to_lower rt) (n ∷ ns); patterns = [] }) (map_leaves [] m')
        (map_leaves [] m)

  redact_variables-Hides :
      (names : List String) (m : Members)
      → Hides names m (redact_variables rt (new_redactor rt names []) m)
  unfolding redact_variables new_redactor go_library.Logger.Redact.Leaves.sensitive
  redact_variables-Hides [] m = refl
  redact_variables-Hides (n ∷ ns) m = redact_map-IsRedacted rt _ [] m refl

  variables_attrs_lem :
      (l : Logger) (red : Option Redactor) (on : Bool) (m : Members)
      → l.redactor ≡ red
      → l.log_variables ≡ on
      → variables_attrs rt l m ≡ (
          if on && not (is_empty m)
          then ("graphql.variables", any (dict (redact_variables rt red m))) ∷ []
          else [])
  unfolding variables_attrs redact_variables
  variables_attrs_lem l red true end e h = refl
  variables_attrs_lem l red false end e h = refl
  variables_attrs_lem l red true (member k v m) e h = rw (h, e) refl
  variables_attrs_lem l red false (member k v m) e h = rw h refl

  -- What a logger that `New` made logs of the variables of an operation: nothing if there are none or
  -- the last setting about them turns them off; otherwise one attribute, with the variables, in which
  -- whatever stands under a name that some setting redacts, of any type, at any depth and in any case,
  -- is the placeholder as a whole, and all else stands in place as it is. Values of types that the
  -- redactor does not look into count as one place.
  pub variables_attrs-Hides :
      (base : State.Logger) (settings : List Setting) (m : Members)
      → (m' : Members) × (variables_attrs rt (new rt base settings) m ≡ (
          if logs_variables true settings && not (is_empty m)
          then ("graphql.variables", any (dict m')) ∷ []
          else []))
        × Hides (names_of settings) m m'
  unfolding new
  variables_attrs-Hides base settings m = (
    redact_variables rt (new_redactor rt (names_of settings) []) m,
    variables_attrs_lem (new rt base settings) _ _ m
        (ap (λ names. new_redactor rt names []) (redact_names-apply_settings settings (fresh base)))
        (log_variables-apply_settings settings (fresh base)),
    redact_variables-Hides (names_of settings) m,
  )
