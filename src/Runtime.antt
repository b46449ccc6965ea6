-- ===== src/Runtime.antt =====
-- What Go's run time, its standard library and the operating system give, and no source file of the
-- repository defines: a parameter of the model.
use Prim.Native.Char.{Char}
use go_library.Prelude.{ℕ, String, Bool, Option, List, ◌≤◌}

-- `runtime.MemStats` and the counters beside it.
pub record Stats : Type 0 where
  pub heap_alloc : ℕ
  pub heap_sys : ℕ
  pub total_alloc : ℕ
  pub num_gc : ℕ
  pub pause_total_ns : ℕ
  pub goroutines : ℕ
  pub num_cpu : ℕ

-- `lower_rune` is the table of `unicode.ToLower` beyond ASCII; `replace_all source text repl` is
-- `ReplaceAllString` of the regular expression compiled from `source`; `clock` gives the reading, in
-- nanoseconds since the Unix epoch, of each `time.Now`, and stands for the wall clock and the
-- monotonic clock alike; `entropy` gives the sixteen bytes of each `rand.Read`, which is documented
-- never to fail. `file_exists` is whether `os.Stat` succeeds.
pub record Runtime : Type 0 where
  pub lower_rune : Char → Char
  pub replace_all : String → String → String → String
  pub clock : ℕ → ℕ
  pub entropy : ℕ → List ℕ
  pub stats : ℕ → Stats
  pub getenv : String → String
  pub file_exists : String → Bool
  pub hostname : Option String
  pub pid : ℕ
  pub go_version : String

-- The clock never goes back, as the monotonic reading does not.
abbrev pub IsMonotonic : Runtime → Type 0
IsMonotonic rt = (m n : ℕ) → m ≤ n → rt.clock m ≤ rt.clock n
