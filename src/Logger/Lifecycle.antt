-- ===== src/Logger/Lifecycle.antt =====
-- logger/lifecycle.go and logger/performance.go: request traces and the snapshot that ends one. The
-- methods are atomic, as the mutex makes them; a nil lifecycle is none.
pub mod Trace
pub mod Timing
pub mod Completion
pub mod Opening
pub mod Ending
pub mod Correlation
pub mod Growth
pub mod Interleaving
use go_library.Prelude.{
  ℕ, pos, ◌-◌, ◌/◌, String, Bool, true, false, Option, some, none, List, [], ◌∷◌, ◌++◌, get_elem?,
  set, if◌then◌else◌, sub_ℕ,
}
use go_library.Runtime.{Runtime, Stats}
use go_library.Logger.Value.{
  Value, text, scalar, any, group, valuer, Attrs, nil, attr, Attr, stages, StageRecord, int,
  boolean, millis, seconds, nano_millis, mebibytes,
}
use go_library.Logger.State.{Logger, Lifecycle, World, M, ◌>>=◌, ◌>>◌, pure, now, alloc}
use go_library.Logger.Context.{Context, lifecycle_value, ensure_request_id}
use go_library.Logger.Handler.{debug, info}

-- `durMs`, in whole microseconds. Both times carry a monotonic reading, and `to` is the later one.
unfoldable pub dur_ms : ℕ → ℕ → ℕ
dur_ms from to = (to - from) / 1000

-- `PerformanceSnapshot`
pub record PerformanceSnapshot : Type 0 where
  pub stats : Stats
  pub uptime : ℕ
  pub cold_start : Bool

-- `LogValue`
unfoldable pub snapshot_value : PerformanceSnapshot → Value
snapshot_value p = group (
    attr "heapAllocMB" (scalar (mebibytes p.stats.heap_alloc)) (
      attr "heapSysMB" (scalar (mebibytes p.stats.heap_sys)) (
        attr "totalAllocMB" (scalar (mebibytes p.stats.total_alloc)) (
          attr "numGC" (scalar (int (pos p.stats.num_gc))) (
            attr "gcPauseTotalMs" (scalar (nano_millis p.stats.pause_total_ns)) (
              attr "goroutines" (scalar (int (pos p.stats.goroutines))) (
                attr "numCPU" (scalar (int (pos p.stats.num_cpu))) (
                  attr "uptimeSec" (scalar (seconds (pos p.uptime)))
                    (attr "coldStart" (scalar (boolean p.cold_start)) nil)))))))))

module _ (rt : Runtime) where
  -- `CapturePerformance`
  unfoldable pub capture_performance : M PerformanceSnapshot
  unfolding now
  capture_performance w =
      let (t, w') = now rt w in
      (
        record {
          stats = rt.stats w.clock_reads;
          uptime = t - w.process_start;
          cold_start = w.cold_start;
        },
        w',
      )

  -- `LogPerformance`
  unfoldable pub log_performance : Logger → Context → String → M (Unit {0})
  unfolding capture_performance
  log_performance l ctx msg = do
    p ← capture_performance
    info rt l ctx msg (("performance", valuer (snapshot_value p)) ∷ [])

  -- `StartRequest`
  unfoldable pub start_request : Logger → Context → String → List Attr → M (Context × ℕ)
  unfolding ensure_request_id now alloc
  start_request l ctx name attrs = do
    (ctx1, _) ← ensure_request_id rt ctx
    t ← now rt
    p ←
        alloc (record {
          name = name;
          start = t;
          log = l;
          last_stage = t;
          stage_list = [];
          ended = false;
        })
    let ctx2 = lifecycle_value p ctx1
    debug rt l ctx2 "request started" (("request", text name) ∷ attrs)
    pure (ctx2, p)

  abbrev update : ℕ → Lifecycle → World → World
  update p lc w = record w { lifecycles = set w.lifecycles p lc }

  unfoldable pub stage_record : Lifecycle → String → ℕ → StageRecord
  unfolding dur_ms
  stage_record lc name t = record {
    name = name;
    elapsed_ms = dur_ms lc.start t;
    since_ms = dur_ms lc.last_stage t;
  }

  -- What `Stage` writes into the lifecycle at the time `t`.
  unfoldable pub add_stage : Lifecycle → String → ℕ → Lifecycle
  unfolding stage_record
  add_stage lc name t = record lc {
    last_stage = t;
    stage_list = lc.stage_list ++ stage_record lc name t ∷ [];
  }

  unfoldable pub stage_at : ℕ → Lifecycle → Context → String → List Attr → M (Unit {0})
  unfolding add_stage now
  stage_at p lc ctx name attrs w =
      let (t, w1) = now rt w in
      let rec = stage_record lc name t in
      debug rt lc.log ctx "stage completed"
        (("request", text lc.name)
          ∷ ("stage", text name)
          ∷ ("elapsedMs", scalar (millis rec.elapsed_ms))
          ∷ ("stageMs", scalar (millis rec.since_ms))
          ∷ attrs)
        (update p (add_stage lc name t) w1)

  -- `Stage`
  unfoldable pub stage : Option ℕ → Context → String → List Attr → M (Unit {0})
  unfolding stage_at
  stage none ctx name attrs w = (tt, w)
  stage (some p) ctx name attrs w = elim (get_elem? w.lifecycles p) [
    | none ↦ (tt, w)
    | some lc ↦ stage_at p lc ctx name attrs w
  ]

  abbrev stages_attr : List StageRecord → List Attr
  stages_attr [] = []
  stages_attr (s ∷ ss) = ("stages", any (stages (s ∷ ss))) ∷ []

  -- `End` on a lifecycle that has not ended.
  unfoldable pub end_open : ℕ → Lifecycle → Context → List Attr → M (Unit {0})
  unfolding capture_performance now dur_ms
  end_open p lc ctx attrs w =
      let (perf, w1) = capture_performance (update p (record lc { ended = true }) w) in
      let (t, w2) = now rt (record w1 { cold_start = false }) in
      info rt lc.log ctx "request completed"
        ((("request", text lc.name)
            ∷ ("durationMs", scalar (millis (dur_ms lc.start t)))
            ∷ ("performance", valuer (snapshot_value perf))
            ∷ stages_attr lc.stage_list)
          ++ attrs)
        w2

  -- `End`
  unfoldable pub finish : Option ℕ → Context → List Attr → M (Unit {0})
  unfolding end_open
  finish none ctx attrs w = (tt, w)
  finish (some p) ctx attrs w = elim (get_elem? w.lifecycles p) [
    | none ↦ (tt, w)
    | some lc ↦ if lc.ended then (tt, w) else end_open p lc ctx attrs w
  ]
