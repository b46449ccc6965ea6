-- ===== src/Tests/Data.antt =====
-- A run time, a configuration and a world for the runs of the other test modules: a clock that gains
-- two milliseconds at each reading, and a regular expression engine that knows one expression.
use go_library.Prelude.{
  ℕ, ◌+◌, ◌*◌, true, false, none, some, [], ◌∷◌, arith, ◌==◌, string_eq, if◌then◌else◌,
}
use go_library.Runtime.{Runtime, Stats, IsMonotonic}
use go_library.Logger.State.{World, Config}
use go_library.Logger.Redact.{Redactor}

abbrev stats_at : ℕ → Stats
stats_at n = record {
  heap_alloc = n;
  heap_sys = n;
  total_alloc = n;
  num_gc = 0;
  pause_total_ns = 0;
  goroutines = 1;
  num_cpu = 4;
}

abbrev pub run_time : Runtime
run_time = record {
  lower_rune = λ c. c;
  replace_all = λ source text repl. if source == text then repl else text;
  clock = λ n. n * 2000000 + 5;
  entropy = λ n. n ∷ 1 ∷ 2 ∷ 3 ∷ 4 ∷ 5 ∷ 0xff ∷ 7 ∷ 0xff ∷ 9 ∷ 10 ∷ 11 ∷ 12 ∷ 13 ∷ 14 ∷ 0xab ∷ [];
  stats = stats_at;
  getenv = λ key. if key == "KUBERNETES_SERVICE_HOST" then "10.0.0.1" else "";
  file_exists = λ path. false;
  hostname = some "box";
  pid = 7;
  go_version = "go1.26";
}

pub run_time-IsMonotonic : IsMonotonic run_time
run_time-IsMonotonic m n h = omega arith

abbrev pub boot : World
boot = record {
  clock_reads = 0;
  ids_made = 0;
  levels = [];
  lifecycles = [];
  cold_start = true;
  process_start = 1;
  default_logger = none;
  lines = [];
}

abbrev pub orders : Config
orders = record {
  service = "orders";
  version = "1.4.2";
  environment = "prod";
  platform = none;
  level = " Debug ";
  format = none;
  team = "";
  static_fields = [];
  redact_keys = "Password" ∷ [];
  redact_pii = false;
  redact_patterns = record { regexp = "joe"; replacement = "" } ∷ [];
}

abbrev pub orders_redactor : Redactor
orders_redactor = record {
  keys = "password" ∷ [];
  patterns = record { regexp = "joe"; replacement = "" } ∷ [];
}
