-- ===== src/Logger/Redact/Leaves.antt =====
-- logger/redact.go: the places that a value has, each with the keys that lie above it. This is the
-- description against which the redactor is read; it shares no code with it.
use go_library.Prelude.{
  ℕ, ◌≡◌, String, Bool, true, false, ◌||◌, List, [], ◌∷◌, ◌++◌, All, if◌then◌else◌,
}
use go_library.Runtime.{Runtime}
use go_library.Logger.Value.{
  Any, str, dict, strs, arr, nil_any, stages, other, Members, end, member, Items, done, item, Value,
  text, scalar, any, group, valuer, Attrs, nil, attr, Attr, Scalar, StageRecord,
}
use go_library.Logger.Redact.{Redactor, redacted, scrub, match}

-- What stands at one place of a value: a text, a number or time, nil, stages, a value of a type that is
-- not told apart, or a container, whose parts have places of their own.
pub data Content : Type 0 where
  a_text : String → Content
  a_scalar : Scalar → Content
  a_nil a_map a_text_map a_list a_group : Content
  some_stages : List StageRecord → Content
  an_other : ℕ → Content

-- The keys above a place, the innermost first, and what stands there.
abbrev pub Leaf : Type 0
Leaf = List String × Content

unfoldable pub strs_leaves : List String → List (String × String) → List Leaf
strs_leaves p [] = []
strs_leaves p ((k, s) ∷ kvs) = (k ∷ p, a_text s) ∷ strs_leaves p kvs

unfoldable mutual
  pub any_leaves : List String → Any → List Leaf
  any_leaves p (str s) = (p, a_text s) ∷ []
  any_leaves p (dict m) = (p, a_map) ∷ map_leaves p m
  any_leaves p (strs kvs) = (p, a_text_map) ∷ strs_leaves p kvs
  any_leaves p (arr xs) = (p, a_list) ∷ items_leaves p xs
  any_leaves p nil_any = (p, a_nil) ∷ []
  any_leaves p (stages ss) = (p, some_stages ss) ∷ []
  any_leaves p (other n) = (p, an_other n) ∷ []

  pub map_leaves : List String → Members → List Leaf
  map_leaves p end = []
  map_leaves p (member k v m) = any_leaves (k ∷ p) v ++ map_leaves p m

  pub items_leaves : List String → Items → List Leaf
  items_leaves p done = []
  items_leaves p (item v xs) = any_leaves p v ++ items_leaves p xs

unfoldable mutual
  pub value_leaves : List String → Value → List Leaf
  value_leaves p (text s) = (p, a_text s) ∷ []
  value_leaves p (scalar x) = (p, a_scalar x) ∷ []
  value_leaves p (any a) = any_leaves p a
  value_leaves p (group gs) = (p, a_group) ∷ attrs_leaves p gs
  value_leaves p (valuer v) = value_leaves p v

  pub attrs_leaves : List String → Attrs → List Leaf
  attrs_leaves p nil = []
  attrs_leaves p (attr k v gs) = value_leaves (k ∷ p) v ++ attrs_leaves p gs

unfoldable pub attr_leaves : Attr → List Leaf
attr_leaves (k, v) = value_leaves (k ∷ []) v

module _ (rt : Runtime) (r : Redactor) where
  -- Some key on the path is one of the redactor's, up to case.
  unfoldable pub sensitive : List String → Bool
  sensitive [] = false
  sensitive (k ∷ ks) = match rt r k || sensitive ks

  -- The places under no sensitive key.
  unfoldable pub plain : List Leaf → List Leaf
  plain [] = []
  plain ((p, c) ∷ ls) = if sensitive p then plain ls else (p, c) ∷ plain ls

  abbrev pub scrub_content : Content → Content
  scrub_content (a_text s) = a_text (scrub rt r s)
  scrub_content c = c

  unfoldable pub scrub_leaves : List Leaf → List Leaf
  scrub_leaves [] = []
  scrub_leaves ((p, c) ∷ ls) = (p, scrub_content c) ∷ scrub_leaves ls

  abbrev pub IsBlank : Leaf → Type 0
  IsBlank (p, c) = sensitive p ≡ true → c ≡ a_text redacted

  -- `out` is what a redactor may make of a value: under a sensitive key there is nothing but the
  -- placeholder, no container either, and all that stands under no sensitive key is in place, texts
  -- with the patterns scrubbed out of them and the rest as it is.
  pub record IsRedacted (out before : List Leaf) : Type 0 where
    pub blank : All IsBlank out
    pub kept : plain out ≡ scrub_leaves (plain before)
