-- ===== src/Events.antt =====
-- events/logger.go: messages that are consumed and produced, over the lifecycle of the logger package.
-- The function that `ConsumeStart` returns is the value of what it captures.
pub mod Tracing
pub mod Correlation
use go_library.Prelude.{
  ℕ, ℤ, pos, String, ◌<>◌, Option, none, some, List, [], ◌∷◌, ◌++◌, Dict, lookup, ◌==◌, string_eq,
  if◌then◌else◌,
}
use go_library.Runtime.{Runtime}
use go_library.GoTime.{Time, zero_time, int_eq, until, whole_micros}
use go_library.Logger.Value.{Attr, text, scalar, int, signed_millis}
use go_library.Logger.State.{Logger, M, ◌>>=◌, ◌>>◌, pure, now}
use go_library.Logger.Context.{Context, with_request_id, request_id}
use go_library.Logger.Handler.{info, error, err_attr}
use go_library.Logger.Lifecycle.{start_request, finish}

-- `RequestIDHeader`
abbrev pub request_id_header : String
request_id_header = "x-request-id"

-- `Message`
pub record Message : Type 0 where
  pub topic : String
  pub partition : ℤ
  pub offset : ℤ
  pub key : String
  pub consumer_group : String
  pub headers : Dict String
  pub timestamp : Time

-- What the function returned by `ConsumeStart` captures.
pub record Consumption : Type 0 where
  pub base : Logger
  pub ctx : Context
  pub lc : ℕ
  pub attrs : List Attr

abbrev when_set : String → String → List Attr
when_set key value = if value == "" then [] else (key, text value) ∷ []

-- `msgAttrs`
unfoldable pub msg_attrs : String → Message → List Attr
msg_attrs prefix msg =
    ((prefix <> "topic", text msg.topic)
      ∷ (prefix <> "partition", scalar (int msg.partition))
      ∷ (prefix <> "offset", scalar (int msg.offset))
      ∷ [])
    ++ (when_set (prefix <> "key") msg.key
        ++ when_set (prefix <> "consumerGroup") msg.consumer_group)

-- The value of a header, "" where it is missing.
unfoldable pub header_of : Message → String → String
header_of msg key = elim (lookup key msg.headers) [ none ↦ "" | some v ↦ v ]

-- The context of a consumer before its trace starts.
unfoldable pub correlated : Context → Message → Context
unfolding header_of with_request_id
correlated ctx msg =
    if header_of msg request_id_header == ""
    then ctx
    else with_request_id ctx (header_of msg request_id_header)

-- `OutgoingHeaders`
unfoldable pub outgoing_headers : Context → Dict String
outgoing_headers ctx = if request_id ctx == "" then [] else (request_id_header, request_id ctx) ∷ []

module _ (rt : Runtime) where
  -- The attribute of the lag, which is negative where the clocks disagree.
  unfoldable pub lag_attrs : Message → M (List Attr)
  lag_attrs msg = if msg.timestamp == zero_time then pure [] else (do
    t ← now rt
    pure
        (("kafka.lagMs", scalar (signed_millis (whole_micros (until msg.timestamp (pos t))))) ∷ []))

  -- `ConsumeStart`
  unfoldable pub consume_start : Logger → Context → Message → M (Context × Consumption)
  unfolding correlated lag_attrs msg_attrs
  consume_start l ctx msg = do
    lag ← lag_attrs msg
    let attrs = msg_attrs "kafka." msg ++ lag
    (ctx1, p) ← start_request rt l (correlated ctx msg) ("consume " <> msg.topic) attrs
    info rt l ctx1 "event received" attrs
    pure (ctx1, record { base = l; ctx = ctx1; lc = p; attrs = attrs })

  -- The function that `ConsumeStart` returns.
  unfoldable pub done : Consumption → Option String → M (Unit {0})
  done c none = finish rt (some c.lc) c.ctx (c.attrs ++ ("kafka.result", text "success") ∷ [])
  done c (some e) = do
    error rt c.base c.ctx "event processing failed" (c.attrs ++ err_attr (some e) ∷ [])
    finish rt (some c.lc) c.ctx (c.attrs ++ ("kafka.result", text "error") ∷ [])

  -- `Produced`
  unfoldable pub produced : Logger → Context → Message → Option String → M (Unit {0})
  unfolding msg_attrs
  produced l ctx msg none = info rt l ctx "event produced" (msg_attrs "kafka." msg)
  produced l ctx msg (some e) =
      error rt l ctx "event produce failed" (msg_attrs "kafka." msg ++ err_attr (some e) ∷ [])
