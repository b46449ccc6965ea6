-- ===== src/Lib.antt =====
-- A model of go-library, a Go library of observability and client packages, and theorems about it.
--
-- The program's parts, and the files that model them:
--
--   requestid/requestid.go      RequestId: the bytes of a version 4 UUID and its text.
--   logger/config.go            Logger/Level (level names), Logger/State (Config, Format).
--   logger/context.go           Logger/Context: request ids in a context.
--   logger/redact.go            Logger/Redact: the redactor over values as log/slog has them.
--   logger/handler.go           Logger/Handler: the chain of handlers, `contextHandler` outermost, then
--                               `redactHandler` if there is anything to redact, then the sink of slog.
--   logger/lifecycle.go         Logger/Lifecycle: traces of requests, with performance.go.
--   logger/platform.go          Logger/Platform: detection of the platform and its attributes.
--   logger/logger.go            Logger/Setup: `New`, `Init`, `Default`; the methods are in Logger/Handler.
--   oauth/token.go              Oauth/Token (tokens and responses), Oauth/Token/Entry (cached entries).
--   oauth/errors.go             Oauth/Errors.
--   oauth/oauth.go, cache.go    Oauth/Setup: `New`, its checks and defaults, the derived cache key;
--                               Oauth/Backend/Types: the cache interface, as a record with its laws.
--   oauth/redis/cache.go        Oauth/Backend/Redis: the Redis adapter, which fills that interface.
--   etl/job.go                  Etl: runs of jobs, over the lifecycle of the logger.
--   oauth/client.go             Oauth/Client (requests and `fetch`), Oauth/Client/Methods (the rest).
--   events/logger.go            Events: messages consumed and produced.
--   graphql/logger.go           Graphql: operations, their options and their end.
--   graphql/gqlgen/extension.go Graphql/Gqlgen: the extension of gqlgen.
--   secrets/secrets.go          Secrets: the loader, with the interface of secrets/source.go.
--   secrets/aws/source.go       Secrets/Aws: the methods of the source, and its loop over pages.
--   rest/middleware.go          Rest: the middleware, and its response writer.
--
-- System is the packages together: a step relation with an operation of any package as a step, each of
-- which reaches the state of the logger package only by the operations of that package. Of gqlgen it has
-- the operations that the extension calls. System/Clients has, for the clients and the loader, what any
-- statement needs to be kept by all they do: that the operations of the logger package keep it (Channel).
--
-- Modules below those of a part have its theorems, by what they show: Logger/Lifecycle/Interleaving has
-- the operations of the logger package as a step relation, Logger/Lifecycle/Correlation, Rest/Correlation
-- and Events/Correlation follow one request id through the lines of a request, and Oauth/Client/Secrecy
-- compares the lines of two clients with different credentials and tokens.
--
-- GoTime, GoText and Prelude have what the parts share of Go: times, texts, integers, slices and maps.
--
-- A client calls the logger with each step: it ensures a request id in the context, adds a stage to
-- the trace that the context carries, and logs. The state of the logger package is a `World`: the
-- readings of the clock so far, the level variables and the traces, which are shared objects with an
-- index into the world, and the lines that were written. The packages events, graphql, etl and rest
-- start a trace, log under it, and end it; the loader of secrets has the world beside the state of its
-- source. The state that a client acts on, `Sys`, is a world with the state of the cache, that of the
-- token endpoint, and the requests that were sent. An operation of Go is a function on that state; a
-- pair of results is a product, an error is a value.
--
-- Code outside the repository is a parameter: `Runtime` has the clock, the entropy source, the
-- counters of the Go run time, environment, files, regular expressions and the case folding of
-- characters above ASCII; `Codec` has the scanner and printer of JSON texts, the number formats of
-- strconv, the host of a URL and SHA-256; `TokenCache`, `UniversalClient` and `Endpoint` are what a
-- client talks to. Their documented behaviour is a named hypothesis where a theorem needs it
-- (IsMonotonic, IsLawfulCodec, IsLawfulCache, IsLawfulClient, IsPaginated, IsErrorReply,
-- AcceptsError), and Tests has an instance of each that satisfies it.
--
-- Numbers and bounds: times and durations are nanoseconds; `until` saturates at the ends of int64 and
-- the difference of durations wraps around, as in Go. Measured milliseconds and megabytes are kept as
-- the exact quantities that they are computed from, no floating point is modelled but for the lifetime
-- of a token, whose conversion is a parameter. The body of a response is cut at 1 MB, the copy of an
-- error body at 500 bytes. Loops are recursions on lists or on values, but for the loop over the pages
-- of AWS, which runs on fuel: where the pages of each listing run out (IsPaginated), more fuel than
-- pages is enough.
--
-- Not modelled: the bytes that a sink writes (a line is the record, the format and the scopes it is
-- written with); arguments of a log call that are no attributes; source positions; concurrent use
-- (each operation is one step, which its mutex or atomic makes of it); the limit of log/slog on chains
-- of LogValuer; cancellation through a context; a wall clock that is set apart from the monotonic
-- clock; a handler of net/http that ends the trace of its own request. Maps are lists of their entries
-- in the order of a traversal. Of net/http the handler, `http.Error` and the response writer are
-- parameters, and hijacking through `Unwrap` is not modelled; of gqlgen the response handler, and of
-- the AWS SDK the clients.
pub mod Prelude
pub mod RequestId
pub mod Runtime
pub mod GoText
pub mod GoTime
pub mod Events
pub mod Graphql
pub mod Secrets
pub mod Rest
pub mod Logger
pub mod Oauth
pub mod Etl
pub mod System
mod Tests
