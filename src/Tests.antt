-- ===== src/Tests.antt =====
-- Runs of the modelled code, and the theorems of the library at concrete data.
mod Data
mod PlainCodec
mod LoggerRuns
mod OauthRuns
mod ClientRuns
mod EtlRuns
mod EventsRuns
mod GraphqlRuns
mod SecretsRuns
mod RestRuns
mod SystemRuns
