-- ===== src/Logger/Lifecycle/Opening.antt =====
-- logger/lifecycle.go: what `StartRequest` leaves behind, and how long it stays.
use go_library.Prelude.{
  ℕ, ◌≡◌, refl, sym, ap, ◌∙◌, String, false, Bool-cases, Option-cases, inl, inr, Option, some, none,
  List, [], length, get_elem?, set, get_elem?-append_last, get_elem?-set_self, get_elem?-set_ne,
  ◌==◌, string_eq,
}
use native.Mathlib.Decide.{ℕ_discrete}
use go_library.Runtime.{Runtime}
use go_library.Logger.Value.{Attr}
use go_library.Logger.Level.{Level}
use go_library.Logger.State.{Logger, Lifecycle, World}
use go_library.Logger.Context.{Context, request_id, ensure_request_id}
use go_library.Logger.Handler.{log}
use go_library.Logger.Handler.Effects.{log-Frame}
use go_library.Logger.Lifecycle.{start_request, stage, add_stage, stage_at}

-- A trace that was started and has not ended.
pub record IsOpen (l : Logger) (name : String) (p : ℕ) (w : World) : Type 0 where
  pub lc : Lifecycle
  pub found : get_elem? w.lifecycles p ≡ some lc
  pub not_ended : lc.ended ≡ false
  pub same_log : lc.log ≡ l
  pub same_name : lc.name ≡ name

module _ (rt : Runtime) where
  pub ensure_request_id-levels :
      (ctx : Context) (w : World) → (ensure_request_id rt ctx w).1.levels ≡ w.levels
  unfolding ensure_request_id
  ensure_request_id-levels ctx w = elim (Bool-cases (request_id ctx == "")) [
    | inl e ↦ rw (e, ensure_request_id) refl
    | inr e ↦ rw (e, ensure_request_id) refl
  ]

  pub start_request-IsOpen :
      (l : Logger) (ctx : Context) (name : String) (attrs : List Attr) (w : World)
      → let ((ctx', p), w') = start_request rt l ctx name attrs w in IsOpen l name p w'
  unfolding start_request
  start_request-IsOpen l ctx name attrs w =
      let w1 = (ensure_request_id rt ctx w).1 in
      let lc : Lifecycle = record {
        name = name;
        start = rt.clock w1.clock_reads;
        log = l;
        last_stage = rt.clock w1.clock_reads;
        stage_list = [];
        ended = false;
      } in
      record {
        lc = lc;
        found =
            ap (λ lcs. get_elem? lcs (length w1.lifecycles)) (log-Frame rt _ _ _ _ _ _).lifecycles
            ∙ get_elem?-append_last w1.lifecycles lc;
        not_ended = refl;
        same_log = refl;
        same_name = refl;
      }

  -- The levels stay, and the context carries the new trace and the request id that was there.
  pub start_request-levels :
      (l : Logger) (ctx : Context) (name : String) (attrs : List Attr) (w : World)
      → (start_request rt l ctx name attrs w).1.levels ≡ w.levels
  unfolding start_request
  start_request-levels l ctx name attrs w =
      (log-Frame rt _ _ _ _ _ _).levels ∙ ensure_request_id-levels ctx w

  pub request_id-start_request :
      (l : Logger) (ctx : Context) (name : String) (attrs : List Attr) (w : World)
      → request_id (start_request rt l ctx name attrs w).0.0
        ≡ request_id (ensure_request_id rt ctx w).0.0
  unfolding start_request request_id
  request_id-start_request l ctx name attrs w = refl

  -- A trace stays open where the traces stay as they are.
  pub moved :
      {l : Logger} {name : String} {p : ℕ} {w w' : World}
      → w'.lifecycles ≡ w.lifecycles
      → IsOpen l name p w
      → IsOpen l name p w'
  moved {p = p} e o = record {
    lc = o.lc;
    found = ap (λ lcs. get_elem? lcs p) e ∙ o.found;
    not_ended = o.not_ended;
    same_log = o.same_log;
    same_name = o.same_name;
  }

  -- A log call keeps a trace open, and so does a stage, of whatever trace.
  pub log-IsOpen :
      (k : Logger) (level : Level) (ctx : Context) (msg : String) (args : List Attr) {l : Logger}
      {name : String} {p : ℕ} {w : World}
      → IsOpen l name p w
      → IsOpen l name p (log rt k level ctx msg args w).1
  log-IsOpen k level ctx msg args {w = w} o =
      moved (log-Frame rt k level ctx msg args w).lifecycles o

  pub stage-levels :
      (q : Option ℕ) (ctx : Context) (name : String) (attrs : List Attr) (w : World)
      → (stage rt q ctx name attrs w).1.levels ≡ w.levels
  unfolding stage
  stage-levels none ctx name attrs w = refl
  stage-levels (some q) ctx name attrs w = elim (Option-cases (get_elem? w.lifecycles q)) [
    | inl e ↦ rw (e, stage) refl
    | inr (lc, e) ↦ rw (e, stage) (log-Frame rt _ _ _ _ _ _).levels
  ]

  staged :
      (q p : ℕ) (lc : Lifecycle) (name : String) (t : ℕ) (l : Logger) (tag : String) (w : World)
      → get_elem? w.lifecycles q ≡ some lc
      → IsOpen l tag p w
      → IsOpen l tag p (record w { lifecycles = set w.lifecycles q (add_stage rt lc name t) })
  unfolding add_stage
  staged q p lc name t l tag w e o = elim (ℕ_discrete q p) [
    | yes same ↦
        let x : o.lc ≡ lc = cc (same, e, o.found) in
        record {
          lc = add_stage rt lc name t;
          found = rw (← same) (get_elem?-set_self w.lifecycles q _ e);
          not_ended = ap (λ c. c.ended) (sym x) ∙ o.not_ended;
          same_log = ap (λ c. c.log) (sym x) ∙ o.same_log;
          same_name = ap (λ c. c.name) (sym x) ∙ o.same_name;
        }
    | no ne ↦ record {
      lc = o.lc;
      found = get_elem?-set_ne w.lifecycles q p _ ne ∙ o.found;
      not_ended = o.not_ended;
      same_log = o.same_log;
      same_name = o.same_name;
    }
  ]

  pub stage-IsOpen :
      (q : Option ℕ) (ctx : Context) (tag : String) (attrs : List Attr) {l : Logger} {name : String}
      {p : ℕ} {w : World}
      → IsOpen l name p w
      → IsOpen l name p (stage rt q ctx tag attrs w).1
  unfolding stage stage_at
  stage-IsOpen none ctx tag attrs o = o
  stage-IsOpen (some q) ctx tag attrs {w = w} o = elim (Option-cases (get_elem? w.lifecycles q)) [
    | inl e ↦ rw (e, stage) o
    | inr (lc, e) ↦
        rw (e, stage) (log-IsOpen _ _ _ _ _ (staged q _ lc tag _ _ _ _ e (moved refl o)))
  ]
