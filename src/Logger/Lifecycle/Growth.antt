-- ===== src/Logger/Lifecycle/Growth.antt =====
-- logger/lifecycle.go and logger/handler.go: what the operations of the logger package never take back.
use go_library.Prelude.{
  ℕ, ◌≤◌, ◌≡◌, refl, sym, ap, ◌∙◌, String, true, false, Bool-cases, Option-cases, inl, inr, Option,
  some, none, List, [], ◌∷◌, ◌++◌, append-nil, append_assoc, get_elem?, set, get_elem?-append_left,
  get_elem?-set_self, get_elem?-set_ne, ◌==◌, string_eq, arith,
}
use native.Mathlib.Decide.{ℕ_discrete}
use go_library.Runtime.{Runtime}
use go_library.Logger.Value.{Attr, StageRecord}
use go_library.Logger.Level.{Level}
use go_library.Logger.State.{Logger, Lifecycle, World, Line, now, alloc}
use go_library.Logger.Context.{Context, request_id, ensure_request_id}
use go_library.Logger.Handler.{enabled, log}
use go_library.Logger.Handler.Effects.{line_of, log_enabled, log_disabled}
use go_library.Logger.Lifecycle.{start_request, stage, add_stage, stage_at, finish, end_open}

-- What becomes of a trace: its name, its start and its logger stay, stages are only added behind the
-- others, and the end is final.
pub record Kept (lc lc' : Lifecycle) : Type 0 where
  pub name : lc'.name ≡ lc.name
  pub start : lc'.start ≡ lc.start
  pub same_log : lc'.log ≡ lc.log
  pub more : List StageRecord
  pub stages_kept : lc'.stage_list ≡ lc.stage_list ++ more
  pub over : lc.ended ≡ true → lc'.ended ≡ true

Kept-refl : (lc : Lifecycle) → Kept lc lc
Kept-refl lc = record {
  name = refl;
  start = refl;
  same_log = refl;
  more = [];
  stages_kept = sym (append-nil lc.stage_list);
  over = λ h. h;
}

Kept-trans : {a b c : Lifecycle} → Kept a b → Kept b c → Kept a c
Kept-trans {a} x y = record {
  name = y.name ∙ x.name;
  start = y.start ∙ x.start;
  same_log = y.same_log ∙ x.same_log;
  more = x.more ++ y.more;
  stages_kept =
      y.stages_kept ∙ ap (λ l. l ++ y.more) x.stages_kept ∙ append_assoc a.stage_list x.more y.more;
  over = λ h. y.over (x.over h);
}

-- What becomes of the world: lines are only added behind the others, every trace is kept, the clock is
-- read and ids are drawn, and the cold start is over once.
pub record Grows (w w' : World) : Type 0 where
  pub added : List Line
  pub lines : w'.lines ≡ w.lines ++ added
  pub traces :
      (p : ℕ) (lc : Lifecycle)
      → get_elem? w.lifecycles p ≡ some lc
      → (lc' : Lifecycle) × (get_elem? w'.lifecycles p ≡ some lc') × Kept lc lc'
  pub reads : w.clock_reads ≤ w'.clock_reads
  pub ids : w.ids_made ≤ w'.ids_made
  pub warm : w.cold_start ≡ false → w'.cold_start ≡ false
  pub process : w'.process_start ≡ w.process_start

pub Grows-trans : {u v w : World} → Grows u v → Grows v w → Grows u w
Grows-trans {u} a b = record {
  added = a.added ++ b.added;
  lines = b.lines ∙ ap (λ l. l ++ b.added) a.lines ∙ append_assoc u.lines a.added b.added;
  traces = λ p lc found.
      let (lc1, found1, kept1) = a.traces p lc found in
      let (lc2, found2, kept2) = b.traces p lc1 found1 in (lc2, found2, Kept-trans kept1 kept2);
  reads = omega (arith, a.reads, b.reads);
  ids = omega (arith, a.ids, b.ids);
  warm = λ h. b.warm (a.warm h);
  process = b.process ∙ a.process;
}

-- No line is written and no trace is touched.
pub Grows-still :
    {w w' : World}
    → w'.lines ≡ w.lines
    → w'.lifecycles ≡ w.lifecycles
    → w.clock_reads ≤ w'.clock_reads
    → w.ids_made ≤ w'.ids_made
    → (w.cold_start ≡ false → w'.cold_start ≡ false)
    → w'.process_start ≡ w.process_start
    → Grows w w'
Grows-still {w} lines same reads ids warm process = record {
  added = [];
  lines = lines ∙ sym (append-nil w.lines);
  traces = λ p lc found. (lc, ap (λ l. get_elem? l p) same ∙ found, Kept-refl lc);
  reads = reads;
  ids = ids;
  warm = warm;
  process = process;
}

pub Grows-refl : (w : World) → Grows w w
Grows-refl w = Grows-still refl refl (omega arith) (omega arith) (λ h. h) refl

-- A trace is replaced by one that keeps it.
set-Grows :
    (q : ℕ) (lc lc' : Lifecycle) (w : World)
    → get_elem? w.lifecycles q ≡ some lc
    → Kept lc lc'
    → Grows w (record w { lifecycles = set w.lifecycles q lc' })
set-Grows q lc lc' w e k = record {
  added = [];
  lines = sym (append-nil w.lines);
  traces = λ p x found. elim (ℕ_discrete q p) [
    | yes same ↦
        let at_q : get_elem? w.lifecycles q ≡ some x = rw same found in
        let is_x : lc ≡ x = cc (e, at_q) in
        (lc', rw (← same) (get_elem?-set_self w.lifecycles q lc' e), rw (← is_x) k)
    | no ne ↦ (x, get_elem?-set_ne w.lifecycles q p lc' ne ∙ found, Kept-refl x)
  ];
  reads = omega arith;
  ids = omega arith;
  warm = λ h. h;
  process = refl;
}

append-Grows :
    (lc : Lifecycle) (w : World) → Grows w (record w { lifecycles = w.lifecycles ++ lc ∷ [] })
append-Grows lc w = record {
  added = [];
  lines = sym (append-nil w.lines);
  traces = λ p x found. (x, get_elem?-append_left w.lifecycles (lc ∷ []) p found, Kept-refl x);
  reads = omega arith;
  ids = omega arith;
  warm = λ h. h;
  process = refl;
}

module _ (rt : Runtime) where
  pub now-Grows : (w : World) → Grows w (now rt w).1
  unfolding now
  now-Grows w = Grows-still refl refl (omega arith) (omega arith) (λ h. h) refl

  pub ensure_request_id-Grows : (ctx : Context) (w : World) → Grows w (ensure_request_id rt ctx w).1
  unfolding ensure_request_id
  ensure_request_id-Grows ctx w = elim (Bool-cases (request_id ctx == "")) [
    | inl e ↦
        rw (e, ensure_request_id) (Grows-still refl refl (omega arith) (omega arith) (λ h. h) refl)
    | inr e ↦ rw (e, ensure_request_id) (Grows-refl w)
  ]

  pub log-Grows :
      (l : Logger) (level : Level) (ctx : Context) (msg : String) (args : List Attr) (w : World)
      → Grows w (log rt l level ctx msg args w).1
  log-Grows l level ctx msg args w = elim (Bool-cases (enabled rt l.handler w level)) [
    | inl on ↦ rw (log_enabled rt l level ctx msg args w on) (record {
      added =
          line_of rt l.handler ctx
            (record { time = rt.clock w.clock_reads; level = level; message = msg; attrs = args })
          ∷ [];
      lines = refl;
      traces = λ p lc found. (lc, found, Kept-refl lc);
      reads = omega arith;
      ids = omega arith;
      warm = λ h. h;
      process = refl;
    })
    | inr off ↦ rw (log_disabled rt l level ctx msg args w off) (Grows-refl w)
  ]

  add_stage-Kept : (lc : Lifecycle) (name : String) (t : ℕ) → Kept lc (add_stage rt lc name t)
  unfolding add_stage
  add_stage-Kept lc name t = record {
    name = refl;
    start = refl;
    same_log = refl;
    more = _;
    stages_kept = refl;
    over = λ h. h;
  }

  ended-Kept : (lc : Lifecycle) → Kept lc (record lc { ended = true })
  ended-Kept lc = record {
    name = refl;
    start = refl;
    same_log = refl;
    more = [];
    stages_kept = sym (append-nil lc.stage_list);
    over = λ h. refl;
  }

  pub stage-Grows :
      (p : Option ℕ) (ctx : Context) (name : String) (attrs : List Attr) (w : World)
      → Grows w (stage rt p ctx name attrs w).1
  unfolding stage stage_at now
  stage-Grows none ctx name attrs w = Grows-refl w
  stage-Grows (some p) ctx name attrs w = elim (Option-cases (get_elem? w.lifecycles p)) [
    | inl e ↦ rw (e, stage) (Grows-refl w)
    | inr (lc, e) ↦
        let lc' = add_stage rt lc name (rt.clock w.clock_reads) in
        rw (e, stage)
          (Grows-trans (now-Grows w) (
            Grows-trans (set-Grows p lc lc' _ e (add_stage-Kept lc name _))
              (log-Grows _ _ _ _ _ _)))
  ]

  pub finish-Grows :
      (p : Option ℕ) (ctx : Context) (attrs : List Attr) (w : World)
      → Grows w (finish rt p ctx attrs w).1
  unfolding finish end_open
  finish-Grows none ctx attrs w = Grows-refl w
  finish-Grows (some p) ctx attrs w = elim (Option-cases (get_elem? w.lifecycles p)) [
    | inl e ↦ rw (e, finish) (Grows-refl w)
    | inr (lc, e) ↦ elim (Bool-cases lc.ended) [
      | inl over ↦ rw (e, finish, over) (Grows-refl w)
      | inr open_ ↦
          rw (e, finish, open_)
            (Grows-trans (set-Grows p lc (record lc { ended = true }) w e (ended-Kept lc)) (
              Grows-trans (Grows-still refl refl (omega arith) (omega arith) (λ h. refl) refl)
                (log-Grows _ _ _ _ _ _)))
    ]
  ]

  pub start_request-Grows :
      (l : Logger) (ctx : Context) (name : String) (attrs : List Attr) (w : World)
      → Grows w (start_request rt l ctx name attrs w).1
  unfolding start_request now alloc
  start_request-Grows l ctx name attrs w =
      Grows-trans (ensure_request_id-Grows ctx w)
        (Grows-trans (now-Grows _) (Grows-trans (append-Grows _ _) (log-Grows _ _ _ _ _ _)))
