-- ===== src/Logger/Redact/Soundness.antt =====
-- logger/redact.go: what the redactor makes of every value.
use go_library.Prelude.{
  ◌≡◌, refl, String, true, false, inl, inr, Bool-cases, List, [], ◌∷◌, ◌++◌, All-append,
}
use mathlib.Core.Path.{subst}
use go_library.Runtime.{Runtime}
use go_library.Logger.Value.{
  Any, str, dict, strs, arr, nil_any, stages, other, Members, end, member, Items, done, item, Value,
  text, scalar, any, group, valuer, Attrs, nil, attr, Attr, any_value,
}
use go_library.Logger.Redact.{
  Redactor, redacted, match, redact_any, redact_strs, redact_map, redact_items, redact_value,
  redact_attrs, redact_attr,
}
use go_library.Logger.Redact.Leaves.{
  Leaf, any_leaves, strs_leaves, map_leaves, items_leaves, value_leaves, attrs_leaves, attr_leaves,
  sensitive, plain, scrub_leaves, IsBlank, IsRedacted, scrub_content, Content, a_text, a_scalar,
  a_nil, a_map, a_text_map, a_list, a_group, some_stages, an_other,
}
use go_library.Logger.Redact.Hidden.{
  plain-append, scrub_leaves-append, any_hidden, value_hidden, leaf_hidden,
}

module _ (rt : Runtime) (r : Redactor) where
  IsRedacted-nil : IsRedacted rt r [] []
  unfolding scrub_leaves plain
  IsRedacted-nil = record { blank = tt; kept = refl }

  IsRedacted-append :
      (xs ys us vs : List Leaf)
      → IsRedacted rt r xs us
      → IsRedacted rt r ys vs
      → IsRedacted rt r (xs ++ ys) (us ++ vs)
  IsRedacted-append xs ys us vs h k = record {
    blank = All-append (IsBlank rt r) xs ys h.blank k.blank;
    kept =
        rw (plain-append rt r xs ys, plain-append rt r us vs, scrub_leaves-append, h.kept, k.kept);
  }

  -- What stands under no sensitive key is scrubbed.
  IsRedacted-scrub :
      (p : List String) (c : Content)
      → sensitive rt r p ≡ false
      → IsRedacted rt r ((p, scrub_content rt r c) ∷ []) ((p, c) ∷ [])
  unfolding scrub_leaves plain
  IsRedacted-scrub p c h = record { blank = (λ e. cc, tt); kept = rw h }

  -- A container under no sensitive key stays, with its parts redacted.
  IsRedacted-container :
      (p : List String) (c : Content) (out before : List Leaf)
      → scrub_content rt r c ≡ c
      → sensitive rt r p ≡ false
      → IsRedacted rt r out before
      → IsRedacted rt r ((p, c) ∷ out) ((p, c) ∷ before)
  IsRedacted-container p c out before e h i =
      IsRedacted-append (_ ∷ []) out (_ ∷ []) before
        (subst (λ d. IsRedacted rt r ((p, d) ∷ []) ((p, c) ∷ [])) e (IsRedacted-scrub p c h)) i

  -- The placeholder, for places that are all under a sensitive key.
  IsRedacted-blank :
      (p : List String) (before : List Leaf)
      → sensitive rt r p ≡ true
      → plain rt r before ≡ []
      → IsRedacted rt r ((p, a_text redacted) ∷ []) before
  unfolding scrub_leaves
  IsRedacted-blank p before h k = record {
    blank = (λ e. refl, tt);
    kept = rw (k, leaf_hidden rt r p (a_text redacted) h);
  }

  sensitive-match :
      (k : String) (p : List String) → match rt r k ≡ true → sensitive rt r (k ∷ p) ≡ true
  unfolding sensitive
  sensitive-match k p h = rw h

  sensitive_no_match :
      (k : String) (p : List String)
      → match rt r k ≡ false
      → sensitive rt r p ≡ false
      → sensitive rt r (k ∷ p) ≡ false
  unfolding sensitive
  sensitive_no_match k p h q = rw (h, q)

  redact_strs-IsRedacted :
      (p : List String) (kvs : List (String × String))
      → sensitive rt r p ≡ false
      → IsRedacted rt r (strs_leaves p (redact_strs rt r kvs)) (strs_leaves p kvs)
  unfolding strs_leaves redact_strs
  redact_strs-IsRedacted p [] h = IsRedacted-nil
  redact_strs-IsRedacted p ((k, s) ∷ kvs) h =
      let ih = redact_strs-IsRedacted p kvs h in
      elim (Bool-cases (match rt r k)) [
        | inl hit ↦
            let q = sensitive-match k p hit in
            rw hit (
              IsRedacted-append (_ ∷ []) _ (_ ∷ []) _
                (IsRedacted-blank (k ∷ p) _ q (leaf_hidden rt r (k ∷ p) (a_text s) q)) ih)
        | inr miss ↦ rw miss (
            IsRedacted-append (_ ∷ []) _ (_ ∷ []) _
              (IsRedacted-scrub (k ∷ p) (a_text s) (sensitive_no_match k p miss h)) ih)
      ]

  mutual
    unfolding any_leaves redact_any

    redact_any-IsRedacted :
        (p : List String) (a : Any)
        → sensitive rt r p ≡ false
        → IsRedacted rt r (any_leaves p (redact_any rt r a)) (any_leaves p a)
    redact_any-IsRedacted p (str s) h = IsRedacted-scrub p (a_text s) h
    redact_any-IsRedacted p (dict m) h =
        IsRedacted-container p a_map _ _ refl h (redact_map-IsRedacted p m h)
    redact_any-IsRedacted p (strs kvs) h =
        IsRedacted-container p a_text_map _ _ refl h (redact_strs-IsRedacted p kvs h)
    redact_any-IsRedacted p (arr xs) h =
        IsRedacted-container p a_list _ _ refl h (redact_items-IsRedacted p xs h)
    redact_any-IsRedacted p nil_any h = IsRedacted-scrub p a_nil h
    redact_any-IsRedacted p (stages ss) h = IsRedacted-scrub p (some_stages ss) h
    redact_any-IsRedacted p (other n) h = IsRedacted-scrub p (an_other n) h

    pub redact_map-IsRedacted :
        (p : List String) (m : Members)
        → sensitive rt r p ≡ false
        → IsRedacted rt r (map_leaves p (redact_map rt r m)) (map_leaves p m)
    redact_map-IsRedacted p end h = IsRedacted-nil
    redact_map-IsRedacted p (member k v m) h = elim (Bool-cases (match rt r k)) [
      | inl hit ↦
          let q = sensitive-match k p hit in
          rw hit (
            IsRedacted-append _ _ _ _ (IsRedacted-blank (k ∷ p) _ q (any_hidden rt r (k ∷ p) v q))
              (redact_map-IsRedacted p m h))
      | inr miss ↦ rw miss (
          IsRedacted-append _ _ _ _
            (redact_any-IsRedacted (k ∷ p) v (sensitive_no_match k p miss h))
            (redact_map-IsRedacted p m h))
    ]

    redact_items-IsRedacted :
        (p : List String) (xs : Items)
        → sensitive rt r p ≡ false
        → IsRedacted rt r (items_leaves p (redact_items rt r xs)) (items_leaves p xs)
    redact_items-IsRedacted p done h = IsRedacted-nil
    redact_items-IsRedacted p (item v xs) h =
        IsRedacted-append _ _ _ _ (redact_any-IsRedacted p v h) (redact_items-IsRedacted p xs h)

  value_leaves-any_value :
      (p : List String) (a : Any) → value_leaves p (any_value a) ≡ any_leaves p a
  unfolding value_leaves any_leaves
  value_leaves-any_value p (str s) = refl
  value_leaves-any_value p _ = refl

  mutual
    unfolding value_leaves redact_value

    redact_value-IsRedacted :
        (p : List String) (v : Value)
        → sensitive rt r p ≡ false
        → IsRedacted rt r (value_leaves p (redact_value rt r v)) (value_leaves p v)
    redact_value-IsRedacted p (text s) h = IsRedacted-scrub p (a_text s) h
    redact_value-IsRedacted p (scalar x) h = IsRedacted-scrub p (a_scalar x) h
    redact_value-IsRedacted p (any a) h = rw value_leaves-any_value (redact_any-IsRedacted p a h)
    redact_value-IsRedacted p (group gs) h =
        IsRedacted-container p a_group _ _ refl h (redact_attrs-IsRedacted p gs h)
    redact_value-IsRedacted p (valuer v) h = redact_value-IsRedacted p v h

    redact_attrs-IsRedacted :
        (p : List String) (gs : Attrs)
        → sensitive rt r p ≡ false
        → IsRedacted rt r (attrs_leaves p (redact_attrs rt r gs)) (attrs_leaves p gs)
    redact_attrs-IsRedacted p nil h = IsRedacted-nil
    redact_attrs-IsRedacted p (attr k v gs) h = elim (Bool-cases (match rt r k)) [
      | inl hit ↦
          let q = sensitive-match k p hit in
          rw hit (
            IsRedacted-append _ _ _ _ (IsRedacted-blank (k ∷ p) _ q (value_hidden rt r (k ∷ p) v q))
              (redact_attrs-IsRedacted p gs h))
      | inr miss ↦ rw miss (
          IsRedacted-append _ _ _ _
            (redact_value-IsRedacted (k ∷ p) v (sensitive_no_match k p miss h))
            (redact_attrs-IsRedacted p gs h))
    ]

  pub redact_attr-IsRedacted :
      (a : Attr) → IsRedacted rt r (attr_leaves (redact_attr rt r a)) (attr_leaves a)
  unfolding attr_leaves redact_attr sensitive value_leaves
  redact_attr-IsRedacted (k, v) = elim (Bool-cases (match rt r k)) [
    | inl hit ↦
        let q = sensitive-match k [] hit in
        rw hit (IsRedacted-blank (k ∷ []) _ q (value_hidden rt r (k ∷ []) v q))
    | inr miss ↦ rw miss (redact_value-IsRedacted (k ∷ []) v (sensitive_no_match k [] miss refl))
  ]
