-- ===== src/Logger/Lifecycle/Interleaving.antt =====
-- logger/*.go: the operations of the logger package in any order, and what holds through all of them.
use go_library.Prelude.{ℕ, ◌≡◌, refl, String, true, false, Option, some, List, get_elem?, arith}
use go_library.Runtime.{Runtime}
use go_library.Logger.Value.{Attr}
use go_library.Logger.Level.{Level}
use go_library.Logger.State.{Config, Logger, Lifecycle, World, now}
use go_library.Logger.Context.{Context, ensure_request_id}
use go_library.Logger.Handler.{log, set_level}
use go_library.Logger.Setup.{new, init}
use go_library.Logger.Lifecycle.{start_request, stage, finish}
use go_library.Logger.Lifecycle.Growth.{
  Grows, Grows-refl, Grows-still, Grows-trans, now-Grows, ensure_request_id-Grows, log-Grows,
  stage-Grows, finish-Grows, start_request-Grows,
}
use go_library.Logger.Lifecycle.Completion.{finish_marks}

module _ (rt : Runtime) where
  -- The operations of the logger package, of any number of requests, in any order. The packages above
  -- it also read the clock.
  pub data Steps (w : World) : World → Type 0 where
    here : Steps w w
    reads : {u : World} → Steps w u → Steps w (now rt u).1
    news : {u : World} → Steps w u → (cfg : Config) → Steps w (new rt cfg u).1
    inits : {u : World} → Steps w u → (cfg : Config) → Steps w (init rt cfg u).1
    sets :
        {u : World} → Steps w u → (l : Logger) (level : String) → Steps w (set_level rt l level u).1
    ids : {u : World} → Steps w u → (ctx : Context) → Steps w (ensure_request_id rt ctx u).1
    logs :
        {u : World}
        → Steps w u
        → (l : Logger) (level : Level) (ctx : Context) (msg : String) (args : List Attr)
        → Steps w (log rt l level ctx msg args u).1
    starts :
        {u : World}
        → Steps w u
        → (l : Logger) (ctx : Context) (name : String) (attrs : List Attr)
        → Steps w (start_request rt l ctx name attrs u).1
    stages :
        {u : World}
        → Steps w u
        → (p : Option ℕ) (ctx : Context) (name : String) (attrs : List Attr)
        → Steps w (stage rt p ctx name attrs u).1
    ends :
        {u : World}
        → Steps w u
        → (p : Option ℕ) (ctx : Context) (attrs : List Attr) → Steps w (finish rt p ctx attrs u).1

  new-Grows : (cfg : Config) (w : World) → Grows w (new rt cfg w).1
  unfolding new
  new-Grows cfg w = Grows-still refl refl (omega arith) (omega arith) (λ h. h) refl

  init-Grows : (cfg : Config) (w : World) → Grows w (init rt cfg w).1
  unfolding init new
  init-Grows cfg w = Grows-still refl refl (omega arith) (omega arith) (λ h. h) refl

  set_level-Grows : (l : Logger) (level : String) (w : World) → Grows w (set_level rt l level w).1
  unfolding set_level
  set_level-Grows l level w = Grows-still refl refl (omega arith) (omega arith) (λ h. h) refl

  -- Through whatever operations, of whatever requests and in whatever order: the lines that were
  -- written stay as they are, in their order and in front of all others; every trace that was started keeps its name, its start
  -- and its logger, stages are only added behind the others that it has, and one that has ended stays
  -- so; no reading of the clock and no drawn id is given back; the cold start does not come again once
  -- it is over; and the start of the process stays.
  pub Steps-Grows : {w w' : World} → Steps w w' → Grows w w'
  Steps-Grows {w} here = Grows-refl w
  Steps-Grows (reads s) = Grows-trans (Steps-Grows s) (now-Grows rt _)
  Steps-Grows (news s cfg) = Grows-trans (Steps-Grows s) (new-Grows cfg _)
  Steps-Grows (inits s cfg) = Grows-trans (Steps-Grows s) (init-Grows cfg _)
  Steps-Grows (sets s l level) = Grows-trans (Steps-Grows s) (set_level-Grows l level _)
  Steps-Grows (ids s ctx) = Grows-trans (Steps-Grows s) (ensure_request_id-Grows rt ctx _)
  Steps-Grows (logs s l level ctx msg args) =
      Grows-trans (Steps-Grows s) (log-Grows rt l level ctx msg args _)
  Steps-Grows (starts s l ctx name attrs) =
      Grows-trans (Steps-Grows s) (start_request-Grows rt l ctx name attrs _)
  Steps-Grows (stages s p ctx name attrs) =
      Grows-trans (Steps-Grows s) (stage-Grows rt p ctx name attrs _)
  Steps-Grows (ends s p ctx attrs) = Grows-trans (Steps-Grows s) (finish-Grows rt p ctx attrs _)

  finish_ended :
      (p : ℕ) (ctx : Context) (attrs : List Attr) (w : World) (lc : Lifecycle)
      → get_elem? w.lifecycles p ≡ some lc
      → lc.ended ≡ true
      → finish rt (some p) ctx attrs w ≡ (tt, w)
  unfolding finish
  finish_ended p ctx attrs w lc found over = rw (found, finish, over) refl

  -- A trace that has ended is not ended again, whatever happens in between.
  pub finish-Steps_ended :
      (p : ℕ) (lc : Lifecycle) (w : World)
      → get_elem? w.lifecycles p ≡ some lc
      → lc.ended ≡ true
      → {v : World} → Steps w v
      → (ctx : Context) (attrs : List Attr) → finish rt (some p) ctx attrs v ≡ (tt, v)
  finish-Steps_ended p lc w found over {v} steps ctx attrs =
      let (lc', found', kept) = (Steps-Grows steps).traces p lc found in
      finish_ended p ctx attrs v lc' found' (kept.over over)

  -- A lifecycle is ended at most once under every interleaving: after an `End` on one that had not
  -- ended, and then any operations of the logger package, on this and on other lifecycles and in
  -- whatever order, a further `End` on it changes nothing, whatever its context and attributes.
  pub finish-Steps_once :
      (p : ℕ) (lc : Lifecycle) (ctx ctx' : Context) (attrs attrs' : List Attr) (w : World)
      {v : World}
      → get_elem? w.lifecycles p ≡ some lc
      → lc.ended ≡ false
      → Steps (finish rt (some p) ctx attrs w).1 v
      → finish rt (some p) ctx' attrs' v ≡ (tt, v)
  finish-Steps_once p lc ctx ctx' attrs attrs' w found open_ steps =
      finish-Steps_ended p (record lc { ended = true }) _
        (finish_marks rt p lc ctx attrs w found open_).0 refl steps ctx' attrs'
