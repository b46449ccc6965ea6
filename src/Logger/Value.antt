-- ===== src/Logger/Value.antt =====
-- The values of log attributes: `slog.Value` and `slog.Attr`, and the dynamic Go values that a
-- redactor tells apart.
use go_library.Prelude.{ℕ, ℤ, String, Bool, Option, List}

-- A number or time that is no text. A float is kept as the exact quantity it is computed from:
-- `millis n` is n/1000 of a whole number of microseconds, `seconds d` is d nanoseconds in seconds,
-- `ratio n d` is n divided by d nanoseconds in seconds, `nano_millis n` is n nanoseconds in
-- milliseconds, as `signed_millis d` is d nanoseconds, and `mebibytes n` is n bytes in units of 2 ^ 20.
pub data Scalar : Type 0 where
  int : ℤ → Scalar
  boolean : Bool → Scalar
  millis : ℕ → Scalar
  seconds : ℤ → Scalar
  ratio : ℤ → ℤ → Scalar
  nano_millis : ℕ → Scalar
  signed_millis : ℤ → Scalar
  mebibytes : ℕ → Scalar
  time : Option ℤ → Scalar

-- `stageRecord`
pub record StageRecord : Type 0 where
  pub name : String
  pub elapsed_ms : ℕ
  pub since_ms : ℕ

-- A value of type `any`: the four kinds that `Redactor.Any` handles, nil, the stage list of a
-- lifecycle, and any value of another type, known by a number.
mutual
  pub data Any : Type 0 where
    str : String → Any
    dict : Members → Any
    strs : List (String × String) → Any
    arr : Items → Any
    nil_any : Any
    stages : List StageRecord → Any
    other : ℕ → Any

  -- `map[string]any`
  pub data Members : Type 0 where
    end : Members
    member : String → Any → Members → Members

  -- `[]any`
  pub data Items : Type 0 where
    done : Items
    item : Any → Items → Items

-- `valuer v` is a LogValuer whose `LogValue` returns `v`.
mutual
  pub data Value : Type 0 where
    text : String → Value
    scalar : Scalar → Value
    any : Any → Value
    group : Attrs → Value
    valuer : Value → Value

  pub data Attrs : Type 0 where
    nil : Attrs
    attr : String → Value → Attrs → Attrs

-- `slog.Attr`. An argument list of alternating keys and values is the list of attributes that slog
-- reads it as.
abbrev pub Attr : Type 0
Attr = String × Value

-- `slog.AnyValue` at a dynamic value.
abbrev pub any_value : Any → Value
any_value (str s) = text s
any_value a = any a
