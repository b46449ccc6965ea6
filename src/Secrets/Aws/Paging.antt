-- ===== src/Secrets/Aws/Paging.antt =====
-- secrets/aws/source.go: `ParametersByPath` reads the pages of a listing to the end.
use go_library.Prelude.{
  ℕ, zero, suc, ◌<◌, ◌≡◌, refl, ap, ◌∙◌, ◌⊎◌, String, Option, none, some, List, [], ◌∷◌, ◌++◌, Dict,
  lookup, lookup-insert, ◌==◌, string_eq, if◌then◌else◌, arith, Option-cases, inl, inr,
}
use go_library.Oauth.Codec.{Bytes}
use go_library.Secrets.{Answer, found, missing, failure}
use go_library.Secrets.Aws.{
  Reply, output, not_found_exception, api_error, Parameter, Page, Api, err_not_found, to_string,
  collect, following, request_page, pages, parameters_by_path, IsPaginated,
}

-- More parameters before those of a listing; an error stands for the listing as a whole.
abbrev pub before : List Parameter → Answer (List Parameter) → Answer (List Parameter)
before ps (found qs) = found (ps ++ qs)
before ps (missing e) = missing e
before ps (failure e) = failure e

abbrev pub gathered : Dict Bytes → Answer (List Parameter) → Answer (Dict Bytes)
gathered m (found ps) = found (collect ps m)
gathered m (missing e) = missing e
gathered m (failure e) = failure e

-- The value of the last parameter of a name.
abbrev pub last_value : String → List Parameter → Option Bytes → Option Bytes
last_value k [] v = v
last_value k (p ∷ ps) v =
    last_value k ps (if to_string "" p.name == k then some (to_string [] p.value) else v)

lookup-collect :
    (k : String) (ps : List Parameter) (m : Dict Bytes)
    → lookup k (collect ps m) ≡ last_value k ps (lookup k m)
unfolding collect
lookup-collect k [] m = refl
lookup-collect k (p ∷ ps) m =
    lookup-collect k ps _ ∙ ap (last_value k ps) (lookup-insert k (to_string "" p.name) _ m)

collect-append :
    (ps qs : List Parameter) (m : Dict Bytes) → collect (ps ++ qs) m ≡ collect qs (collect ps m)
unfolding collect
collect-append [] qs m = refl
collect-append (p ∷ ps) qs m = collect-append ps qs _

gathered-before :
    (ps : List Parameter) (r : Answer (List Parameter)) (m : Dict Bytes)
    → gathered (collect ps m) r ≡ gathered m (before ps r)
gathered-before ps (found qs) m = rw (collect-append ps qs m) refl
gathered-before ps (missing e) m = refl
gathered-before ps (failure e) m = refl

module _ (api : Api) (path : String) where
  -- What the service answers to the requests for a listing, from a token and a state on: all the
  -- parameters of its pages, in order, or the first error.
  pub data Served : Option String → api.State → Answer (List Parameter) → api.State → Type 0 where
    last_page :
        {token : Option String} {st : api.State} (page : Page)
        → (request_page api path token st).0 ≡ output page
        → following page.next_token ≡ none
        → Served token st (found page.parameters) (request_page api path token st).1
    more_pages :
        {token : Option String} {st st' : api.State} {r : Answer (List Parameter)} (page : Page)
        (next : String)
        → (request_page api path token st).0 ≡ output page
        → following page.next_token ≡ some next
        → Served (some next) (request_page api path token st).1 r st'
        → Served token st (before page.parameters r) st'
    not_found :
        {token : Option String} {st : api.State} (e : String)
        → (request_page api path token st).0 ≡ not_found_exception e
        → Served token st (missing err_not_found) (request_page api path token st).1
    failed :
        {token : Option String} {st : api.State} (e : String)
        → (request_page api path token st).0 ≡ api_error e
        → Served token st (failure e) (request_page api path token st).1

  module _ (left : String → Option String → api.State → ℕ) (fair : IsPaginated api left) where
    -- A listing that is served, and that the loop returns on enough fuel.
    record Listing (token : Option String) (st : api.State) : Type 0 where
      pub r : Answer (List Parameter)
      pub st' : api.State
      pub served : Served token st r st'
      pub returned :
          (n : ℕ) (m : Dict Bytes)
          → left path token st < n
          → pages api n path token m st ≡ some (gathered m r, st')

    Reply-cases :
        (r : Reply Page)
        → ((page : Page) × (r ≡ output page))
          ⊎ (((e : String) × (r ≡ not_found_exception e)) ⊎ ((e : String) × (r ≡ api_error e)))
    Reply-cases (output page) = inl (page, refl)
    Reply-cases (not_found_exception e) = inr (inl (e, refl))
    Reply-cases (api_error e) = inr (inr (e, refl))

    -- What the loop returns by the answer for a page, on fuel for at least this page.
    stops :
        (token : Option String) (st : api.State) (page : Page) (n : ℕ) (m : Dict Bytes)
        → (request_page api path token st).0 ≡ output page
        → following page.next_token ≡ none
        → left path token st < n
        → pages api n path token m st
          ≡ some (found (collect page.parameters m), (request_page api path token st).1)
    unfolding pages
    stops token st page zero m e stop h = absurd (omega arith)
    stops token st page (suc n) m e stop h = rw (pages, e, stop) refl

    goes_on :
        (token : Option String) (st : api.State) (page : Page) (next : String) (n : ℕ)
        (m : Dict Bytes)
        → (request_page api path token st).0 ≡ output page
        → following page.next_token ≡ some next
        → (rest : Listing (some next) (request_page api path token st).1) → left path token st < n
        → pages api n path token m st ≡ some (gathered m (before page.parameters rest.r), rest.st')
    unfolding pages
    goes_on token st page next zero m e go rest h = absurd (omega arith)
    goes_on token st page next (suc n) m e go rest h =
        rw (pages, e, go)
          (rest.returned n (collect page.parameters m)
              (omega (arith, fair path token st page next e go))
            ∙ ap (λ a. some (a, rest.st')) (gathered-before page.parameters rest.r m))

    refuses :
        (token : Option String) (st : api.State) (e : String) (n : ℕ) (m : Dict Bytes)
        → (request_page api path token st).0 ≡ not_found_exception e
        → left path token st < n
        → pages api n path token m st
          ≡ some (missing err_not_found, (request_page api path token st).1)
    unfolding pages
    refuses token st e zero m q h = absurd (omega arith)
    refuses token st e (suc n) m q h = rw (pages, q) refl

    fails :
        (token : Option String) (st : api.State) (e : String) (n : ℕ) (m : Dict Bytes)
        → (request_page api path token st).0 ≡ api_error e
        → left path token st < n
        → pages api n path token m st ≡ some (failure e, (request_page api path token st).1)
    unfolding pages
    fails token st e zero m q h = absurd (omega arith)
    fails token st e (suc n) m q h = rw (pages, q) refl

    listing :
        (n : ℕ) (token : Option String) (st : api.State) → left path token st < n → Listing token st
    listing zero token st h = absurd (omega arith)
    listing (suc n) token st h = elim (Reply-cases (request_page api path token st).0) [
      | inl (page, e) ↦ elim (Option-cases (following page.next_token)) [
        | inl stop ↦ record {
          r = found page.parameters;
          st' = (request_page api path token st).1;
          served = last_page page e stop;
          returned = λ k m. stops token st page k m e stop;
        }
        | inr (next, go) ↦
            let rest =
              listing n (some next) (request_page api path token st).1
                (omega (arith, fair path token st page next e go)) in
            record {
              r = before page.parameters rest.r;
              st' = rest.st';
              served = more_pages page next e go rest.served;
              returned = λ k m. goes_on token st page next k m e go rest;
            }
      ]
      | inr (inl (e, q)) ↦ record {
        r = missing err_not_found;
        st' = (request_page api path token st).1;
        served = not_found e q;
        returned = λ k m. refuses token st e k m q;
      }
      | inr (inr (e, q)) ↦ record {
        r = failure e;
        st' = (request_page api path token st).1;
        served = failed e q;
        returned = λ k m. fails token st e k m q;
      }
    ]

    -- Where the pages of each listing run out: `ParametersByPath` ends, on any fuel above the bound of
    -- the pages that follow, and returns what the service serves. With an answer of the service for every page, the result has every name with the value
    -- of its last parameter over all pages, and no other name; with an error for one of the pages it
    -- has that error and no parameter.
    pub parameters_by_path_lem :
        (st : api.State)
        → (r : Answer (List Parameter)) × (st' : api.State) × Served none st r st'
          × ((n : ℕ)
              → left path none st < n
              → parameters_by_path api n path st ≡ some (gathered [] r, st'))
          × ((ps : List Parameter) (k : String) → lookup k (collect ps []) ≡ last_value k ps none)
    unfolding parameters_by_path lookup
    parameters_by_path_lem st =
        let ends = listing (suc (left path none st)) none st (omega arith) in
        (ends.r, ends.st', ends.served, λ n h. ends.returned n [] h, λ ps k. lookup-collect k ps [])
