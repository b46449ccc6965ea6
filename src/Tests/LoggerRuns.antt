-- ===== src/Tests/LoggerRuns.antt =====
-- logger/*.go and requestid/requestid.go: runs, and the theorems at concrete data.
use go_library.Prelude.{
  if◌then◌else◌, ℕ, ◌≡◌, refl, ◌≢◌, String, true, false, not, some, List, [], ◌∷◌, ◌++◌, All, arith,
  ltb_ℤ, pos, get_elem?,
}
use go_library.RequestId.{new as new_request_id}
use go_library.RequestId.Format.{read_uuid, IsVersion4, new-read_uuid}
use go_library.GoText.{to_lower, trim_space}
use go_library.Logger.Value.{str, dict, arr, end, member, done, item, Attr, text, any}
use go_library.Logger.Redact.{match, redact_value, redact_any, redact_attr, new_redactor, scrub}
use go_library.Logger.Level.{level_info, parse_level, level_string}
use go_library.Logger.Level.Names.{IsFloor, parse_level-level_string}
use go_library.Logger.State.{Logger, Platform, Lifecycle, Record, World}
use go_library.Logger.Context.{background, request_id}
use go_library.Logger.Handler.{log, with, set_level, enabled}
use go_library.Logger.Handler.Effects.{line_of, level_var, enabled-set_level}
use go_library.Logger.Lifecycle.{start_request, stage, finish}
use go_library.Logger.Lifecycle.Completion.{IsCompletion, finish_lem}
use go_library.Logger.Platform.{detect_platform, platform_attrs}
use go_library.Logger.Platform.Detection.{HasSigns, FromEnvironment, detect_platform_lem}
use go_library.Logger.Setup.{base_attrs, new}
use go_library.Tests.Data.{run_time, boot, orders, orders_redactor}

abbrev sixteen : List ℕ
sixteen = 0 ∷ 1 ∷ 2 ∷ 3 ∷ 4 ∷ 5 ∷ 0xff ∷ 7 ∷ 0xff ∷ 9 ∷ 10 ∷ 11 ∷ 12 ∷ 13 ∷ 14 ∷ 0xab ∷ []

counting_bytes : new_request_id (some sixteen) ≡ some "00010203-0405-4f07-bf09-0a0b0c0d0eab"
unfolding new_request_id
counting_bytes = refl

new-read_uuid_example :
    (s : String) × (new_request_id (some sixteen) ≡ some s)
    × ((u : List ℕ) × (read_uuid s ≡ some u) × IsVersion4 sixteen u)
new-read_uuid_example = new-read_uuid sixteen refl (omega arith)

abbrev nested_args : List Attr
nested_args = ("component", text "db") ∷ []

abbrev nested : Attr
nested = (
  "input",
  any (dict (member "PassWord" (str "x") (member "names" (arr (item (str "joe") done)) end))),
)

redacts_nested : redact_attr run_time orders_redactor nested ≡ (
  "input",
  any (
      dict (
        member "PassWord"
          (str "[REDACTED]")
          (member "names" (arr (item (str "[REDACTED]") done)) end))),
)
unfolding redact_attr redact_any match to_lower redact_value scrub
redacts_nested = refl

parse_level-level_string_example : IsFloor (pos 5) (parse_level run_time (level_string (pos 5)))
parse_level-level_string_example = parse_level-level_string run_time (pos 5)

-- The first call of `New`, and a second one in the world that it leaves.
first : Logger × World
unfolding new new_redactor with base_attrs
first = new run_time orders boot

second : Logger × World
unfolding first
second = new run_time orders first.1

enabled-set_level_example :
    (enabled run_time
        (with run_time second.0 nested_args).handler
        (set_level run_time second.0 "warn" second.1).1
        level_info
      ≡ not (ltb_ℤ level_info (parse_level run_time "warn")))
    × (enabled run_time first.0.handler (set_level run_time second.0 "warn" second.1).1 level_info
        ≡ enabled run_time first.0.handler second.1 level_info)
unfolding second level_var
enabled-set_level_example =
    enabled-set_level run_time second.0 first.0 nested_args "warn" second.1
      (record { same = refl; exists_ = (_, refl) }) (record { same = refl; exists_ = (_, refl) })
      (omega arith) level_info

started : World
unfolding first start_request log request_id parse_level to_lower trim_space
started = (start_request run_time first.0 background "GET /orders" [] first.1).1

staged : World
unfolding started stage
staged = (stage run_time (some 0) background "db.query" [] started).1

abbrev trace : Lifecycle
trace = record {
  name = "GET /orders";
  start = 5;
  log = first.0;
  last_stage = 4000005;
  stage_list = record { name = "db.query"; elapsed_ms = 4000; since_ms = 4000 } ∷ [];
  ended = false;
}

finish_lem_example :
    let w' = (finish run_time (some 0) background [] staged).1 in
    (get_elem? w'.lifecycles 0 ≡ some (record trace { ended = true }))
    × ((q : ℕ) → 0 ≢ q → get_elem? w'.lifecycles q ≡ get_elem? staged.lifecycles q)
    × (w'.cold_start ≡ false)
    × (rec : Record) × IsCompletion run_time trace [] staged rec
    × (w'.lines
        ≡ staged.lines
          ++ (if enabled run_time trace.log.handler staged level_info
              then line_of run_time trace.log.handler background rec ∷ []
              else []))
unfolding staged
finish_lem_example = finish_lem run_time 0 trace background [] staged refl refl

detect_platform_lem_example :
    HasSigns run_time (detect_platform run_time)
    × ((p : Platform) → All (FromEnvironment run_time) (platform_attrs run_time p))
detect_platform_lem_example = detect_platform_lem run_time
