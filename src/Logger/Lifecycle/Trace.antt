-- ===== src/Logger/Lifecycle/Trace.antt =====
-- logger/lifecycle.go: the times of a trace. `Stage` is given readings of a clock that never goes
-- back, and so its records are in order.
use go_library.Prelude.{ℕ, suc, ◌≤◌, String, List, [], ◌∷◌, ◌++◌, All, All-append, arith}
use go_library.Runtime.{Runtime, IsMonotonic}
use go_library.Logger.Value.{StageRecord}
use go_library.Logger.State.{Lifecycle}
use go_library.Logger.Lifecycle.{dur_ms, add_stage}

-- No stage comes after a later one.
abbrev pub IsOrdered : ℕ → List StageRecord → Type 0
IsOrdered least [] = Unit
IsOrdered least (s ∷ ss) = (least ≤ s.elapsed_ms) × IsOrdered s.elapsed_ms ss

-- The times of a stage fit into the time up to the stage, and that one into the given bound.
abbrev pub IsWithin : ℕ → StageRecord → Type 0
IsWithin bound s = (s.since_ms ≤ s.elapsed_ms) × (s.elapsed_ms ≤ bound)

-- A trace whose times are in order, at clock reading `reads`.
pub record IsTimed (rt : Runtime) (reads : ℕ) (lc : Lifecycle) : Type 0 where
  pub started : lc.start ≤ lc.last_stage
  pub past : lc.last_stage ≤ rt.clock reads
  pub within : All (IsWithin (dur_ms lc.start lc.last_stage)) lc.stage_list
  pub ordered : IsOrdered 0 lc.stage_list

IsOrdered-append :
    (least : ℕ) (ss : List StageRecord) (s : StageRecord) (bound : ℕ)
    → IsOrdered least ss
    → All (IsWithin bound) ss
    → bound ≤ s.elapsed_ms
    → least ≤ s.elapsed_ms
    → IsOrdered least (ss ++ s ∷ [])
IsOrdered-append least [] s bound o i h k = (k, tt)
IsOrdered-append least (x ∷ ss) s bound (p, o) (i, is) h k =
    (p, IsOrdered-append x.elapsed_ms ss s bound o is h (omega arith))

All-IsWithin_mono :
    (a b : ℕ) (ss : List StageRecord) → a ≤ b → All (IsWithin a) ss → All (IsWithin b) ss
All-IsWithin_mono a b [] h i = tt
All-IsWithin_mono a b (s ∷ ss) h ((p, q), i) = ((p, omega arith), All-IsWithin_mono a b ss h i)

pub dur_ms_mono : (a b c d : ℕ) → c ≤ a → b ≤ d → dur_ms a b ≤ dur_ms c d
unfolding dur_ms
dur_ms_mono a b c d h k = omega arith

module _ (rt : Runtime) (mono : IsMonotonic rt) where
  -- One stage, at the reading of the clock that `Stage` takes.
  pub add_stage-IsTimed :
      (reads : ℕ) (lc : Lifecycle) (name : String)
      → IsTimed rt reads lc
      → IsTimed rt (suc reads) (add_stage rt lc name (rt.clock reads))
  unfolding add_stage
  add_stage-IsTimed reads lc name t =
      let at = rt.clock reads in
      let past = t.past in
      let started = t.started in
      let grown = dur_ms_mono lc.start lc.last_stage lc.start at (omega arith) past in
      record {
        started = omega arith;
        past = mono reads (suc reads) (omega arith);
        within =
            All-append (IsWithin (dur_ms lc.start at)) lc.stage_list _
              (All-IsWithin_mono _ _ lc.stage_list grown t.within)
              ((dur_ms_mono lc.last_stage at lc.start at started (omega arith), omega arith), tt);
        ordered =
            IsOrdered-append 0 lc.stage_list _ (dur_ms lc.start lc.last_stage) t.ordered t.within
              grown (omega arith);
      }

  pub IsTimed-later : (m n : ℕ) (lc : Lifecycle) → m ≤ n → IsTimed rt m lc → IsTimed rt n lc
  IsTimed-later m n lc h t =
      let past = t.past in
      let later = mono m n h in
      record { started = t.started; past = omega arith; within = t.within; ordered = t.ordered }
