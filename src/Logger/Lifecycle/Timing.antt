-- ===== src/Logger/Lifecycle/Timing.antt =====
-- logger/lifecycle.go: every operation keeps the times of every trace in order.
use go_library.Prelude.{
  ℕ, suc, ◌≤◌, String, true, false, Option, some, none, List, [], ◌∷◌, All, All-append, get_elem?,
  arith, All-set, All-get_elem?, ◌==◌, string_eq, Bool-cases, Option-cases, inl, inr,
}
use go_library.Runtime.{Runtime, IsMonotonic}
use go_library.Logger.Value.{Attr}
use go_library.Logger.Level.{Level}
use go_library.Logger.State.{Logger, Lifecycle, World, now}
use go_library.Logger.Context.{Context, request_id}
use go_library.Logger.Handler.{log, set_level}
use go_library.Logger.Setup.{new, init}
use go_library.Logger.Handler.Effects.{Frame, log-Frame}
use go_library.Logger.Lifecycle.{start_request, stage, finish, end_open}
use go_library.Logger.Context.{ensure_request_id}
use go_library.Logger.Lifecycle.Interleaving.{
  Steps, here, reads, news, inits, sets, ids, logs, starts, stages, ends,
}
use go_library.Logger.Lifecycle.Trace.{IsTimed, IsTimed-later, add_stage-IsTimed}

module _ (rt : Runtime) (mono : IsMonotonic rt) where
  All-IsTimed-later :
      (m n : ℕ) (lcs : List Lifecycle) → m ≤ n → All (IsTimed rt m) lcs → All (IsTimed rt n) lcs
  All-IsTimed-later m n [] h t = tt
  All-IsTimed-later m n (lc ∷ lcs) h (t, ts) =
      (IsTimed-later rt mono m n lc h t, All-IsTimed-later m n lcs h ts)

  -- Every lifecycle of the world is timed.
  abbrev pub AllTimed : World → Type 0
  AllTimed w = All (IsTimed rt w.clock_reads) w.lifecycles

  Frame-AllTimed : (w w' : World) → Frame w w' → AllTimed w → AllTimed w'
  Frame-AllTimed w w' f t = rw f.lifecycles (All-IsTimed-later _ _ w.lifecycles f.reads t)

  pub log-AllTimed :
      (l : Logger) (level : Level) (ctx : Context) (msg : String) (args : List Attr) (w : World)
      → AllTimed w
      → AllTimed (log rt l level ctx msg args w).1
  log-AllTimed l level ctx msg args w t = Frame-AllTimed w _ (log-Frame rt l level ctx msg args w) t

  pub stage-AllTimed :
      (p : Option ℕ) (ctx : Context) (name : String) (attrs : List Attr) (w : World)
      → AllTimed w
      → AllTimed (stage rt p ctx name attrs w).1
  unfolding stage
  stage-AllTimed none ctx name attrs w t = t
  stage-AllTimed (some p) ctx name attrs w t = elim (Option-cases (get_elem? w.lifecycles p)) [
    | inl e ↦ rw (e, stage) t
    | inr (lc, e) ↦
        rw (e, stage)
          (log-AllTimed _ _ _ _ _ _ (
            All-set (IsTimed rt (suc w.clock_reads)) w.lifecycles p _
              (add_stage-IsTimed rt mono w.clock_reads lc name (All-get_elem? _ w.lifecycles p t e))
              (All-IsTimed-later _ _ w.lifecycles (omega arith) t)))
  ]

  ensure_request_id-AllTimed :
      (ctx : Context) (w : World) → AllTimed w → AllTimed (ensure_request_id rt ctx w).1
  unfolding ensure_request_id
  ensure_request_id-AllTimed ctx w t = elim (Bool-cases (request_id ctx == "")) [
    | inl e ↦ rw (e, ensure_request_id) t
    | inr e ↦ rw (e, ensure_request_id) t
  ]

  fresh-IsTimed :
      (l : Logger) (name : String) (n : ℕ)
      → IsTimed rt (suc n) (record {
        name = name;
        start = rt.clock n;
        log = l;
        last_stage = rt.clock n;
        stage_list = [];
        ended = false;
      })
  fresh-IsTimed l name n = record {
    started = omega arith;
    past = mono n (suc n) (omega arith);
    within = tt;
    ordered = tt;
  }

  pub start_request-AllTimed :
      (l : Logger) (ctx : Context) (name : String) (attrs : List Attr) (w : World)
      → AllTimed w
      → AllTimed (start_request rt l ctx name attrs w).1
  unfolding start_request
  start_request-AllTimed l ctx name attrs w t =
      let w1 = (ensure_request_id rt ctx w).1 in
      log-AllTimed l _ _ _ _ _ (
        All-append (IsTimed rt (suc w1.clock_reads)) w1.lifecycles _
          (All-IsTimed-later _ _ w1.lifecycles (omega arith) (ensure_request_id-AllTimed ctx w t))
          (fresh-IsTimed l name w1.clock_reads, tt))

  ended-IsTimed :
      (n : ℕ) (lc : Lifecycle) → IsTimed rt n lc → IsTimed rt n (record lc { ended = true })
  ended-IsTimed n lc t = record {
    started = t.started;
    past = t.past;
    within = t.within;
    ordered = t.ordered;
  }

  end_open-AllTimed :
      (p : ℕ) (lc : Lifecycle) (ctx : Context) (attrs : List Attr) (w : World)
      → AllTimed w
      → IsTimed rt w.clock_reads lc
      → AllTimed (end_open rt p lc ctx attrs w).1
  unfolding end_open
  end_open-AllTimed p lc ctx attrs w t h = log-AllTimed _ _ _ _ _ _ (
      All-IsTimed-later w.clock_reads _ _ (omega arith)
        (All-set (IsTimed rt w.clock_reads) w.lifecycles p _ (ended-IsTimed _ lc h) t))

  pub finish-AllTimed :
      (p : Option ℕ) (ctx : Context) (attrs : List Attr) (w : World)
      → AllTimed w
      → AllTimed (finish rt p ctx attrs w).1
  unfolding finish
  finish-AllTimed none ctx attrs w t = t
  finish-AllTimed (some p) ctx attrs w t = elim (Option-cases (get_elem? w.lifecycles p)) [
    | inl e ↦ rw (e, finish) t
    | inr (lc, e) ↦ elim (Bool-cases lc.ended) [
      | inl over ↦ rw (e, finish, over) t
      | inr open_ ↦
          rw (e, finish, open_)
            (end_open-AllTimed p lc ctx attrs w t (All-get_elem? _ w.lifecycles p t e))
    ]
  ]

  -- Over a clock that never goes back, whatever requests are started, staged, ended and logged, and in
  -- whatever order, from a world whose traces are timed: in every trace the stages are recorded in the order of their times since
  -- the start, none later than the last stage, and the time since the stage before fits into it.
  pub Steps-AllTimed : {w w' : World} → Steps rt w w' → AllTimed w → AllTimed w'
  unfolding now new init set_level
  Steps-AllTimed here t = t
  Steps-AllTimed (reads {u} s) t =
      All-IsTimed-later _ _ u.lifecycles (omega arith) (Steps-AllTimed s t)
  Steps-AllTimed (news s cfg) t = Steps-AllTimed s t
  Steps-AllTimed (inits s cfg) t = Steps-AllTimed s t
  Steps-AllTimed (sets s l level) t = Steps-AllTimed s t
  Steps-AllTimed (ids {u} s ctx) t = ensure_request_id-AllTimed ctx u (Steps-AllTimed s t)
  Steps-AllTimed (logs {u} s l level ctx msg args) t =
      log-AllTimed l level ctx msg args u (Steps-AllTimed s t)
  Steps-AllTimed (starts {u} s l ctx name attrs) t =
      start_request-AllTimed l ctx name attrs u (Steps-AllTimed s t)
  Steps-AllTimed (stages {u} s p ctx name attrs) t =
      stage-AllTimed p ctx name attrs u (Steps-AllTimed s t)
  Steps-AllTimed (ends {u} s p ctx attrs) t = finish-AllTimed p ctx attrs u (Steps-AllTimed s t)
