-- ===== src/Logger/Level/Names.antt =====
-- logger/config.go and logger/handler.go: the names of levels, written and read.
use go_library.Prelude.{◌≡◌, refl, ◌⊎◌, inl, inr, Bool-cases, ◌<ℤ◌, ◌≤ℤ◌, ltb_ℤ, arith}
use go_library.Runtime.{Runtime}
use go_library.GoText.{to_lower, trim_space}
use go_library.Logger.Level.{
  Level, level_debug, level_info, level_warn, level_error, parse_level, level_string,
}

-- The greatest of the four named levels that is not above the given one, or debug below them all.
abbrev pub IsFloor : Level → Level → Type 0
IsFloor l f =
    ((f ≡ level_error) × (level_error ≤ℤ l))
    ⊎ ((f ≡ level_warn) × (level_warn ≤ℤ l) × (l <ℤ level_error))
    ⊎ ((f ≡ level_info) × (level_info ≤ℤ l) × (l <ℤ level_warn))
    ⊎ ((f ≡ level_debug) × (l <ℤ level_info))

module _ (rt : Runtime) where
  parse_level_words :
      (parse_level rt "debug" ≡ level_debug)
      × (parse_level rt "info" ≡ level_info)
      × (parse_level rt "warn" ≡ level_warn)
      × (parse_level rt "error" ≡ level_error)
  unfolding parse_level to_lower trim_space
  parse_level_words = (refl, refl, refl, refl)

-- Reading back the name that is written for a level gives the greatest of the four named levels
-- that is not above it, or debug where it lies below all four.
pub parse_level-level_string :
    (rt : Runtime) (l : Level) → IsFloor l (parse_level rt (level_string l))
unfolding level_string
parse_level-level_string rt l =
    let (d, i, w, e) = parse_level_words rt in
    elim (Bool-cases (ltb_ℤ l level_info)) [
      | inl p ↦ rw (p, d) (inr (inr (inr (refl, ground arith))))
      | inr p ↦ elim (Bool-cases (ltb_ℤ l level_warn)) [
        | inl q ↦ rw (p, q, i) (inr (inr (inl (refl, ground arith, ground arith))))
        | inr q ↦ elim (Bool-cases (ltb_ℤ l level_error)) [
          | inl k ↦ rw (p, q, k, w) (inr (inl (refl, ground arith, ground arith)))
          | inr k ↦ rw (p, q, k, e) (inl (refl, ground arith))
        ]
      ]
    ]
