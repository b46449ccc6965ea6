-- ===== src/Logger/Redact/Hidden.antt =====
-- logger/redact.go: nothing under a sensitive key is plain.
use go_library.Prelude.{◌≡◌, refl, ap, String, true, List, [], ◌∷◌, ◌++◌, arith}
use go_library.Runtime.{Runtime}
use go_library.Logger.Value.{
  Any, str, dict, strs, arr, nil_any, stages, other, Members, end, member, Items, done, item, Value,
  text, scalar, any, group, valuer, Attrs, nil, attr,
}
use go_library.Logger.Redact.{Redactor}
use go_library.Logger.Redact.Leaves.{
  Leaf, any_leaves, strs_leaves, map_leaves, items_leaves, value_leaves, attrs_leaves, sensitive,
  plain, scrub_leaves, scrub_content, Content, a_text, a_scalar, a_nil, a_map, a_text_map, a_list,
  a_group, some_stages, an_other,
}

module _ (rt : Runtime) (r : Redactor) where
  pub plain-append : (xs ys : List Leaf) → plain rt r (xs ++ ys) ≡ plain rt r xs ++ plain rt r ys
  unfolding plain
  plain-append [] ys = refl
  plain-append ((p, s) ∷ xs) ys = ground (arith, plain-append xs ys)

  pub scrub_leaves-append :
      (xs ys : List Leaf)
      → scrub_leaves rt r (xs ++ ys) ≡ scrub_leaves rt r xs ++ scrub_leaves rt r ys
  unfolding scrub_leaves
  scrub_leaves-append [] ys = refl
  scrub_leaves-append ((p, s) ∷ xs) ys =
      ap (λ t. (p, scrub_content rt r s) ∷ t) (scrub_leaves-append xs ys)

  plain-append_nil :
      (xs ys : List Leaf) → plain rt r xs ≡ [] → plain rt r ys ≡ [] → plain rt r (xs ++ ys) ≡ []
  plain-append_nil xs ys h k = rw (plain-append, h, k)

  pub strs_hidden :
      (p : List String) (kvs : List (String × String))
      → sensitive rt r p ≡ true
      → plain rt r (strs_leaves p kvs) ≡ []
  unfolding plain strs_leaves sensitive
  strs_hidden p [] h = refl
  strs_hidden p ((k, s) ∷ kvs) h = ground (arith, strs_hidden p kvs h)

  pub sensitive-cons :
      (k : String) (p : List String) → sensitive rt r p ≡ true → sensitive rt r (k ∷ p) ≡ true
  unfolding sensitive
  sensitive-cons k p h = ground arith

  pub leaf_hidden :
      (p : List String) (c : Content) → sensitive rt r p ≡ true → plain rt r ((p, c) ∷ []) ≡ []
  unfolding plain
  leaf_hidden p c h = rw h

  pub plain_nil : plain rt r [] ≡ []
  unfolding plain
  plain_nil = refl

  mutual
    unfolding any_leaves

    pub any_hidden :
        (p : List String) (a : Any) → sensitive rt r p ≡ true → plain rt r (any_leaves p a) ≡ []
    any_hidden p (str s) h = leaf_hidden p (a_text s) h
    any_hidden p (dict m) h = plain-append_nil (_ ∷ []) _ (leaf_hidden p a_map h) (map_hidden p m h)
    any_hidden p (strs kvs) h =
        plain-append_nil (_ ∷ []) _ (leaf_hidden p a_text_map h) (strs_hidden p kvs h)
    any_hidden p (arr xs) h =
        plain-append_nil (_ ∷ []) _ (leaf_hidden p a_list h) (items_hidden p xs h)
    any_hidden p nil_any h = leaf_hidden p a_nil h
    any_hidden p (stages ss) h = leaf_hidden p (some_stages ss) h
    any_hidden p (other n) h = leaf_hidden p (an_other n) h

    map_hidden :
        (p : List String) (m : Members) → sensitive rt r p ≡ true → plain rt r (map_leaves p m) ≡ []
    map_hidden p end h = plain_nil
    map_hidden p (member k v m) h =
        plain-append_nil _ _ (any_hidden (k ∷ p) v (sensitive-cons k p h)) (map_hidden p m h)

    items_hidden :
        (p : List String) (xs : Items)
        → sensitive rt r p ≡ true
        → plain rt r (items_leaves p xs) ≡ []
    items_hidden p done h = plain_nil
    items_hidden p (item v xs) h = plain-append_nil _ _ (any_hidden p v h) (items_hidden p xs h)

  mutual
    unfolding value_leaves

    pub value_hidden :
        (p : List String) (v : Value) → sensitive rt r p ≡ true → plain rt r (value_leaves p v) ≡ []
    value_hidden p (text s) h = leaf_hidden p (a_text s) h
    value_hidden p (scalar x) h = leaf_hidden p (a_scalar x) h
    value_hidden p (any a) h = any_hidden p a h
    value_hidden p (group gs) h =
        plain-append_nil (_ ∷ []) _ (leaf_hidden p a_group h) (attrs_hidden p gs h)
    value_hidden p (valuer v) h = value_hidden p v h

    pub attrs_hidden :
        (p : List String) (gs : Attrs)
        → sensitive rt r p ≡ true
        → plain rt r (attrs_leaves p gs) ≡ []
    attrs_hidden p nil h = plain_nil
    attrs_hidden p (attr k v gs) h =
        plain-append_nil _ _ (value_hidden (k ∷ p) v (sensitive-cons k p h)) (attrs_hidden p gs h)
