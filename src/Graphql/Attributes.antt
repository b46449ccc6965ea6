-- ===== src/Graphql/Attributes.antt =====
-- graphql/logger.go: all that is logged of an operation.
use go_library.Prelude.{
  ℕ, ◌+◌, ◌≤◌, ◌<◌, ◌≡◌, Bool, false, ℤ, [], ◌∷◌, ◌++◌, length, take, pos, ltb_ℤ,
}
use go_library.Runtime.{Runtime}
use go_library.Logger.State
use go_library.Oauth.Codec.{Bytes, Codec}
use go_library.Graphql.{Logger, ellipsis}

-- What is shown of a query at a limit: all of it within the limit, and else its first bytes, as many as
-- the limit says, with the mark behind them.
abbrev pub IsQueryPart : ℕ → Bytes → Bytes → Type 0
IsQueryPart n query shown =
    (length shown ≤ n + 14)
    × (length query ≤ n → shown ≡ query)
    × (n < length query → shown ≡ take n query ++ ellipsis)

-- A query is logged if it is not empty and the limit is positive.
abbrev pub logs_query : ℤ → Bytes → Bool
logs_query limit [] = false
logs_query limit (b ∷ bs) = ltb_ℤ (pos 0) limit
