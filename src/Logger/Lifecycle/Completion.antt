-- ===== src/Logger/Lifecycle/Completion.antt =====
-- logger/lifecycle.go: what `End` does, and that it does it once.
use go_library.Prelude.{
  ℕ, suc, ◌-◌, ◌≡◌, refl, ◌≢◌, true, false, some, List, [], ◌∷◌, ◌++◌, get_elem?, set,
  get_elem?-set_self, get_elem?-set_ne, ◌∙◌, ap, sym, append-nil, Bool-cases, inl, inr,
  if◌then◌else◌,
}
use go_library.Runtime.{Runtime}
use go_library.Logger.Value.{Attr, text, scalar, millis, valuer}
use go_library.Logger.Level.{level_info}
use go_library.Logger.State.{Lifecycle, Record, World}
use go_library.Logger.Context.{Context}
use go_library.Logger.Handler.{enabled}
use go_library.Logger.Handler.Effects.{log-Frame, line_of, log_enabled, log_disabled, enabled_congr}
use go_library.Logger.Lifecycle.{
  dur_ms, finish, end_open, stages_attr, PerformanceSnapshot, snapshot_value,
}

module _ (rt : Runtime) where
  -- The record of a completion: the name, the duration up to the second reading of the clock, the
  -- snapshot, the stages if there are any, and the attributes of the call.
  pub record IsCompletion (lc : Lifecycle) (attrs : List Attr) (w : World) (rec : Record)
      : Type 0 where
    pub message : rec.message ≡ "request completed"
    pub level : rec.level ≡ level_info
    pub snapshot : PerformanceSnapshot
    pub cold_start : snapshot.cold_start ≡ w.cold_start
    pub all_attrs :
        rec.attrs
        ≡ (("request", text lc.name)
            ∷ ("durationMs", scalar (millis (dur_ms lc.start (rt.clock (suc w.clock_reads)))))
            ∷ ("performance", valuer (snapshot_value snapshot))
            ∷ stages_attr rt lc.stage_list)
          ++ attrs

  pub ended_again :
      (p : ℕ) (lc : Lifecycle) (ctx : Context) (attrs : List Attr) (w : World)
      → get_elem? w.lifecycles p ≡ some (record lc { ended = true })
      → finish rt (some p) ctx attrs w ≡ (tt, w)
  unfolding finish
  ended_again p lc ctx attrs w h = rw (h, finish)

  module _ (p : ℕ) (lc : Lifecycle) (ctx : Context) (attrs : List Attr) (w : World)
      (found : get_elem? w.lifecycles p ≡ some lc) (open_ : lc.ended ≡ false) where
    finish_open : finish rt (some p) ctx attrs w ≡ end_open rt p lc ctx attrs w
    unfolding finish
    finish_open = rw (found, finish, open_)

    lifecycles-end_open :
        (end_open rt p lc ctx attrs w).1.lifecycles
        ≡ set w.lifecycles p (record lc { ended = true })
    unfolding end_open
    lifecycles-end_open = (log-Frame rt _ _ _ _ _ _).lifecycles

    cold_start-end_open : (end_open rt p lc ctx attrs w).1.cold_start ≡ false
    unfolding end_open
    cold_start-end_open = (log-Frame rt _ _ _ _ _ _).cold_start

    lifecycles-finish :
        (finish rt (some p) ctx attrs w).1.lifecycles
        ≡ set w.lifecycles p (record lc { ended = true })
    lifecycles-finish = rw finish_open lifecycles-end_open

    -- On a lifecycle that has not ended, `End` marks it as ended, and changes no other.
    pub finish_marks :
        (get_elem? (finish rt (some p) ctx attrs w).1.lifecycles p
          ≡ some (record lc { ended = true }))
        × ((q : ℕ)
            → p ≢ q
            → get_elem? (finish rt (some p) ctx attrs w).1.lifecycles q ≡ get_elem? w.lifecycles q)
    finish_marks = (
      rw lifecycles-finish (get_elem?-set_self w.lifecycles p _ found),
      λ q h. rw lifecycles-finish (get_elem?-set_ne w.lifecycles p q _ h),
    )

    -- After an `End` on a lifecycle that had not ended, the process is no longer in its cold start, and
    -- a further `End` on the same lifecycle changes nothing, whatever its context and attributes.
    pub finish_once :
        ((finish rt (some p) ctx attrs w).1.cold_start ≡ false)
        × ((ctx' : Context) (attrs' : List Attr)
            → finish rt (some p) ctx' attrs' (finish rt (some p) ctx attrs w).1
              ≡ (tt, (finish rt (some p) ctx attrs w).1))
    finish_once = (
      rw finish_open cold_start-end_open,
      λ ctx' attrs'. ended_again p lc ctx' attrs' _ finish_marks.0,
    )

    -- The snapshot that `End` takes, and the attributes and the record of the completion.
    abbrev snap : PerformanceSnapshot
    snap = record {
      stats = rt.stats w.clock_reads;
      uptime = rt.clock w.clock_reads - w.process_start;
      cold_start = w.cold_start;
    }

    abbrev completion_attrs : List Attr
    completion_attrs =
        (("request", text lc.name)
          ∷ ("durationMs", scalar (millis (dur_ms lc.start (rt.clock (suc w.clock_reads)))))
          ∷ ("performance", valuer (snapshot_value snap))
          ∷ stages_attr rt lc.stage_list)
        ++ attrs

    abbrev completion : Record
    completion = record {
      time = rt.clock (suc (suc w.clock_reads));
      level = level_info;
      message = "request completed";
      attrs = completion_attrs;
    }

    completion-IsCompletion : IsCompletion lc attrs w completion
    completion-IsCompletion = record {
      message = refl;
      level = refl;
      snapshot = snap;
      cold_start = refl;
      all_attrs = refl;
    }

    -- The world in which the completion is logged.
    abbrev before : World
    before = record w {
      clock_reads = suc (suc w.clock_reads);
      lifecycles = set w.lifecycles p (record lc { ended = true });
      cold_start = false;
    }

    before-enabled :
        enabled rt lc.log.handler before level_info ≡ enabled rt lc.log.handler w level_info
    before-enabled = enabled_congr rt lc.log.handler w before level_info refl

    finish_loud :
        enabled rt lc.log.handler w level_info ≡ true
        → (finish rt (some p) ctx attrs w).1.lines
          ≡ w.lines ++ line_of rt lc.log.handler ctx completion ∷ []
    unfolding end_open
    finish_loud on = rw finish_open (
        ap (λ r. r.1.lines)
          (log_enabled rt lc.log level_info ctx "request completed" completion_attrs before
            (before-enabled ∙ on)))

    finish_silent :
        enabled rt lc.log.handler w level_info ≡ false
        → (finish rt (some p) ctx attrs w).1.lines ≡ w.lines
    unfolding end_open
    finish_silent off = rw finish_open (
        ap (λ r. r.1.lines)
          (log_disabled rt lc.log level_info ctx "request completed" completion_attrs before
            (before-enabled ∙ off)))

    pub finish_line :
        enabled rt lc.log.handler w level_info ≡ true
        → (rec : Record) × IsCompletion lc attrs w rec
          × ((finish rt (some p) ctx attrs w).1.lines
              ≡ w.lines ++ line_of rt lc.log.handler ctx rec ∷ [])
    finish_line on = (completion, completion-IsCompletion, finish_loud on)

    -- `End` on a lifecycle that has not ended marks it as ended and changes no other, and the process
    -- is no longer in its cold start. If the logger of the lifecycle has the info level enabled, it
    -- appends one line, and else none: the one that this logger writes of the completion record, with
    -- the duration since the start, a snapshot of the performance, the stages, and the attributes of
    -- the call.
    pub finish_lem :
        let w' = (finish rt (some p) ctx attrs w).1 in
        (get_elem? w'.lifecycles p ≡ some (record lc { ended = true }))
        × ((q : ℕ) → p ≢ q → get_elem? w'.lifecycles q ≡ get_elem? w.lifecycles q)
        × (w'.cold_start ≡ false)
        × (rec : Record) × IsCompletion lc attrs w rec
        × (w'.lines
            ≡ w.lines
              ++ (if enabled rt lc.log.handler w level_info
                  then line_of rt lc.log.handler ctx rec ∷ []
                  else []))
    finish_lem = (
      finish_marks.0,
      finish_marks.1,
      finish_once.0,
      completion,
      completion-IsCompletion,
      elim (Bool-cases (enabled rt lc.log.handler w level_info)) [
        | inl on ↦ rw on (finish_loud on)
        | inr off ↦ rw off (finish_silent off ∙ sym (append-nil w.lines))
      ],
    )
