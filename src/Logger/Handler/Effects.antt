-- ===== src/Logger/Handler/Effects.antt =====
-- logger/handler.go and logger/logger.go: what one call of a log method does to the world.
use go_library.Prelude.{
  ℕ, suc, ◌≤◌, ◌≡◌, refl, ap, sym, String, true, false, not, List, [], ◌∷◌, ◌++◌, arith, Bool-cases,
  inl, inr, string_eq, ltb_ℤ, set, ◌≢◌, some, get_elem?, get_elem?-set_self, get_elem?-set_ne,
}
use go_library.Runtime.{Runtime}
use go_library.Logger.Value.{Attr}
use go_library.Logger.Level.{Level, parse_level}
use go_library.Logger.State.{
  Handler, sink, redact_handler, context_handler, Logger, Record, Line, World, level_at,
}
use go_library.Logger.Context.{Context}
use go_library.Logger.Handler.{
  redact_record, add_request_id, enabled, handle, with_attrs, log, with, set_level,
}

-- What every log call leaves as it is, and what can only grow.
pub record Frame (w w' : World) : Type 0 where
  pub ids_made : w'.ids_made ≡ w.ids_made
  pub levels : w'.levels ≡ w.levels
  pub lifecycles : w'.lifecycles ≡ w.lifecycles
  pub cold_start : w'.cold_start ≡ w.cold_start
  pub process_start : w'.process_start ≡ w.process_start
  pub default_logger : w'.default_logger ≡ w.default_logger
  pub reads : w.clock_reads ≤ w'.clock_reads

module _ (rt : Runtime) where
  -- The line that a handler writes of a record.
  unfoldable pub line_of : Handler → Context → Record → Line
  line_of (sink f v scopes) ctx rec = record { format = f; scopes = scopes; record_ = rec }
  line_of (redact_handler r h) ctx rec = line_of h ctx (redact_record rt (redact_handler r h) rec)
  line_of (context_handler h) ctx rec = line_of h ctx (add_request_id rt ctx rec)

  pub handle_lem :
      (h : Handler) (ctx : Context) (rec : Record) (w : World)
      → handle rt h ctx rec w ≡ (tt, record w { lines = w.lines ++ line_of h ctx rec ∷ [] })
  unfolding handle line_of
  handle_lem (sink f v scopes) ctx rec w = refl
  handle_lem (redact_handler r h) ctx rec w = handle_lem h ctx _ w
  handle_lem (context_handler h) ctx rec w = handle_lem h ctx _ w

  -- The world after a log call that is enabled.
  abbrev pub logged : Logger → Level → Context → String → List Attr → World → World
  logged l level ctx msg args w = record w {
    clock_reads = suc w.clock_reads;
    lines =
        w.lines
        ++ line_of l.handler ctx
            (record { time = rt.clock w.clock_reads; level = level; message = msg; attrs = args })
          ∷ [];
  }

  pub log_enabled :
      (l : Logger) (level : Level) (ctx : Context) (msg : String) (args : List Attr) (w : World)
      → enabled rt l.handler w level ≡ true
      → log rt l level ctx msg args w ≡ (tt, logged l level ctx msg args w)
  unfolding log
  log_enabled l level ctx msg args w h = rw h (handle_lem _ _ _ _)

  pub log_disabled :
      (l : Logger) (level : Level) (ctx : Context) (msg : String) (args : List Attr) (w : World)
      → enabled rt l.handler w level ≡ false
      → log rt l level ctx msg args w ≡ (tt, w)
  unfolding log
  log_disabled l level ctx msg args w h = rw h

  pub log-Frame :
      (l : Logger) (level : Level) (ctx : Context) (msg : String) (args : List Attr) (w : World)
      → Frame w (log rt l level ctx msg args w).1
  log-Frame l level ctx msg args w = elim (Bool-cases (enabled rt l.handler w level)) [
    | inl on ↦
        rw (log_enabled l level ctx msg args w on) (frame (suc w.clock_reads) _ (omega arith))
    | inr off ↦
        rw (log_disabled l level ctx msg args w off) (frame w.clock_reads w.lines (omega arith))
  ]
    where
      frame :
          (n : ℕ) (ls : List Line)
          → w.clock_reads ≤ n
          → Frame w (record w { clock_reads = n; lines = ls })
      frame n ls h = record {
        ids_made = refl;
        levels = refl;
        lifecycles = refl;
        cold_start = refl;
        process_start = refl;
        default_logger = refl;
        reads = h;
      }

  level_at-set_self :
      (ls : List Level) (i : ℕ) (v : Level) {x : Level}
      → get_elem? ls i ≡ some x
      → level_at (set ls i v) i ≡ v
  level_at-set_self ls i v h = rw (get_elem?-set_self ls i v h, level_at)

  level_at-set_ne :
      (ls : List Level) (i j : ℕ) (v : Level) → i ≢ j → level_at (set ls i v) j ≡ level_at ls j
  level_at-set_ne ls i j v h = rw (get_elem?-set_ne ls i j v h, level_at)

  -- The level variable of the sink that a handler writes to.
  unfoldable pub level_var : Handler → ℕ
  level_var (sink f v scopes) = v
  level_var (redact_handler r h) = level_var h
  level_var (context_handler h) = level_var h

  pub enabled_lem :
      (h : Handler) (w : World) (l : Level)
      → enabled rt h w l ≡ not (ltb_ℤ l (level_at w.levels (level_var h)))
  unfolding enabled level_var
  enabled_lem (sink f v scopes) w l = refl
  enabled_lem (redact_handler r h) w l = enabled_lem h w l
  enabled_lem (context_handler h) w l = enabled_lem h w l

  -- A handler passes the same levels in two worlds with the same level variables.
  pub enabled_congr :
      (h : Handler) (w w' : World) (l : Level)
      → w'.levels ≡ w.levels
      → enabled rt h w' l ≡ enabled rt h w l
  enabled_congr h w w' l e = rw (enabled_lem h w' l, enabled_lem h w l, e)

  pub level_var-with_attrs :
      (h : Handler) (args : List Attr) → level_var (with_attrs rt h args) ≡ level_var h
  unfolding with_attrs level_var
  level_var-with_attrs (sink f v scopes) args = refl
  level_var-with_attrs (redact_handler r h) args = level_var-with_attrs h _
  level_var-with_attrs (context_handler h) args = level_var-with_attrs h args

  pub level_var-with :
      (l : Logger) (args : List Attr) → level_var (with rt l args).handler ≡ level_var l.handler
  unfolding with
  level_var-with l [] = refl
  level_var-with l (a ∷ args) = level_var-with_attrs l.handler (a ∷ args)

  -- A logger whose handler writes under the level variable that `SetLevel` of it changes.
  pub record IsWired (l : Logger) (w : World) : Type 0 where
    pub same : level_var l.handler ≡ l.level
    pub exists_ : (v : Level) × (get_elem? w.levels l.level ≡ some v)

  -- For loggers whose handlers have their level variables, which stand in the world: after `SetLevel`
  -- on a logger, it and every logger derived from it by `With` pass exactly the levels from the named
  -- one up; a logger with another level variable passes what it passed before.
  pub enabled-set_level :
      (l m : Logger) (args : List Attr) (name : String) (w : World)
      → IsWired l w
      → IsWired m w
      → m.level ≢ l.level
      → (level : Level)
      → (enabled rt (with rt l args).handler (set_level rt l name w).1 level
          ≡ not (ltb_ℤ level (parse_level rt name)))
        × (enabled rt m.handler (set_level rt l name w).1 level ≡ enabled rt m.handler w level)
  unfolding set_level
  enabled-set_level l m args name w hl hm other level = (
    rw (enabled_lem, level_var-with, hl.same)
        (ap (λ v. not (ltb_ℤ level v))
          (level_at-set_self w.levels l.level (parse_level rt name) hl.exists_.1)),
    rw
        (
          enabled_lem m.handler (set_level rt l name w).1 level,
          enabled_lem m.handler w level,
          hm.same,
        )
        (ap (λ v. not (ltb_ℤ level v))
          (level_at-set_ne w.levels l.level m.level (parse_level rt name) (λ e. other (sym e)))),
  )
