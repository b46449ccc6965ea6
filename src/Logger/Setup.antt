-- ===== src/Logger/Setup.antt =====
-- logger/logger.go: `New`, `Init` and `Default`.
pub mod Redaction
pub mod Correlation
use go_library.Prelude.{
  ℕ, pos, String, Bool, true, false, ◌≡◌, Option, some, none, List, [], ◌∷◌, ◌++◌, map, length,
  if◌then◌else◌,
}
use go_library.Runtime.{Runtime}
use go_library.Logger.Value.{Any, any_value, text, scalar, int, Attr}
use go_library.Logger.Redact.{Redactor, Pattern, pii_patterns, new_redactor}
use go_library.Logger.Level.{parse_level}
use go_library.Logger.State.{
  Platform, local, Format, json, text_format, Config, Handler, sink, redact_handler,
  context_handler, Logger, World, M, ◌>>=◌, ◌>>◌, pure,
}
use go_library.Logger.Handler.{with}
use go_library.Logger.Platform.{platform_name, detect_platform, platform_attrs, optional}

module _ (rt : Runtime) where
  -- The platform and the format that `New` settles.
  unfoldable pub effective_platform : Option Platform → Platform
  effective_platform none = detect_platform rt
  effective_platform (some p) = p

  unfoldable pub default_format : Platform → Format
  default_format local = text_format
  default_format _ = json

  unfoldable pub effective_format : Option Format → Platform → Format
  unfolding default_format
  effective_format none p = default_format p
  effective_format (some f) p = f

  abbrev hostname_attr : Option String → List Attr
  hostname_attr none = []
  hostname_attr (some host) = ("hostname", text host) ∷ []

  abbrev static_attr : String × Any → Attr
  static_attr (k, v) = (k, any_value v)

  -- `baseAttrs`
  unfoldable pub base_attrs : Config → Platform → List Attr
  base_attrs cfg p =
      ("service", text cfg.service) ∷ optional rt "version" cfg.version
      ++ (optional rt "environment" cfg.environment
          ++ (("platform", text (platform_name p)) ∷ optional rt "team" cfg.team
              ++ (hostname_attr rt.hostname
                  ++ (("pid", scalar (int (pos rt.pid)))
                        ∷ ("goVersion", text rt.go_version)
                        ∷ platform_attrs rt p
                      ++ map static_attr cfg.static_fields))))

  -- The patterns of the redactor.
  unfoldable pub all_patterns : Config → List Pattern
  all_patterns cfg =
      if cfg.redact_pii then pii_patterns ++ cfg.redact_patterns else cfg.redact_patterns

  unfoldable pub inner_handler : Option Redactor → Handler → Handler
  inner_handler none h = h
  inner_handler (some r) h = redact_handler r h

  -- `New`
  unfoldable pub new : Config → M Logger
  unfolding effective_platform effective_format all_patterns inner_handler
  new cfg w =
      let platform = effective_platform cfg.platform in
      let format = effective_format cfg.format platform in
      let cfg' = record cfg { platform = some platform; format = some format } in
      let v = length w.levels in
      let r = new_redactor rt cfg.redact_keys (all_patterns cfg) in
      let h = context_handler (inner_handler r (sink format v [])) in
      (
        with rt (record { handler = h; level = v; cfg = cfg' }) (base_attrs cfg' platform),
        record w { levels = w.levels ++ parse_level rt cfg.level ∷ [] },
      )

  -- `Init`
  unfoldable pub init : Config → M Logger
  unfolding new
  init cfg w = let (l, w') = new cfg w in (l, record w' { default_logger = some l })

-- `Default`; none is the panic before `Init`.
unfoldable pub default : World → Option Logger
default w = w.default_logger
