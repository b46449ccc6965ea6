-- ===== src/Logger/State.antt =====
-- The state of the logger package: what it keeps, and what it writes. A pointer to a level variable
-- or to a lifecycle is an index into the list of those that were made.
use go_library.Prelude.{
  ℕ, suc, String, Bool, Option, some, none, List, [], ◌∷◌, ◌++◌, length, get_elem?,
}
use go_library.Runtime.{Runtime}
use go_library.RequestId.{uuid}
use go_library.Logger.Value.{Any, Attr, StageRecord}
use go_library.Logger.Redact.{Pattern, Redactor}
use go_library.Logger.Level.{Level, level_info}

-- `Platform`
pub data Platform : Type 0 where
  lambda ecs kubernetes container local : Platform
  named_platform : String → Platform

-- `Format`; any other text selects JSON.
pub data Format : Type 0 where
  json text_format : Format
  named_format : String → Format

-- `Config`; an empty platform or format is none. The output is the list of lines of the world.
pub record Config : Type 0 where
  pub service : String
  pub version : String
  pub environment : String
  pub platform : Option Platform
  pub level : String
  pub format : Option Format
  pub team : String
  pub static_fields : List (String × Any)
  pub redact_keys : List String
  pub redact_pii : Bool
  pub redact_patterns : List Pattern

-- What `With` and `WithGroup` have added to a handler.
pub data Scope : Type 0 where
  bound : List Attr → Scope
  opened : String → Scope

-- `slog.Handler`: a text or JSON handler over a level variable, and the two decorators.
pub data Handler : Type 0 where
  sink : Format → ℕ → List Scope → Handler
  redact_handler : Redactor → Handler → Handler
  context_handler : Handler → Handler

-- `Logger`
pub record Logger : Type 0 where
  pub handler : Handler
  pub level : ℕ
  pub cfg : Config

-- `slog.Record`
pub record Record : Type 0 where
  pub time : ℕ
  pub level : Level
  pub message : String
  pub attrs : List Attr

-- What a sink is given to write: its format and scopes, and the record.
pub record Line : Type 0 where
  pub format : Format
  pub scopes : List Scope
  pub record_ : Record

-- `Lifecycle`
pub record Lifecycle : Type 0 where
  pub name : String
  pub start : ℕ
  pub log : Logger
  pub last_stage : ℕ
  pub stage_list : List StageRecord
  pub ended : Bool

pub record World : Type 0 where
  pub clock_reads : ℕ
  pub ids_made : ℕ
  pub levels : List Level
  pub lifecycles : List Lifecycle
  pub cold_start : Bool
  pub process_start : ℕ
  pub default_logger : Option Logger
  pub lines : List Line

abbrev pub M : Type 0 → Type 0
M A = World → A × World

infixl 5 ◌>>=◌ ◌>>◌
abbrev pub ◌>>=◌ : {A B : Type 0} → M A → (A → M B) → M B
◌>>=◌ m f w = let (a, w') = m w in f a w'

abbrev pub ◌>>◌ : {A B : Type 0} → M A → M B → M B
◌>>◌ m k w = let (a, w') = m w in k w'

abbrev pub pure : {A : Type 0} → A → M A
pure a w = (a, w)

-- `time.Now`
unfoldable pub now : Runtime → M ℕ
now rt w = (rt.clock w.clock_reads, record w { clock_reads = suc w.clock_reads })

-- `requestid.New`
unfoldable pub new_id : Runtime → M String
new_id rt w = (uuid (rt.entropy w.ids_made), record w { ids_made = suc w.ids_made })

-- The level that a level variable holds.
abbrev pub level_at : List Level → ℕ → Level
level_at ls i = elim (get_elem? ls i) [ none ↦ level_info | some l ↦ l ]

-- A new lifecycle, and its pointer.
unfoldable pub alloc : Lifecycle → M ℕ
alloc lc w = (length w.lifecycles, record w { lifecycles = w.lifecycles ++ lc ∷ [] })
