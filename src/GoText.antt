-- ===== src/GoText.antt =====
-- The parts of Go's `strings` and `unicode` packages that the code calls, over native texts.
use Prim.Native.Char.{Char, code}
use go_library.Prelude.{
  ℕ, String, ◌<>◌, Bool, ◌&&◌, ◌||◌, List, [], ◌∷◌, leb, ltb, ◌==◌, nat_eq, string_eq,
  if◌then◌else◌,
}
use go_library.Runtime.{Runtime}

-- `unicode.IsSpace`
unfoldable pub is_space : ℕ → Bool
is_space c =
    (leb 0x09 c && leb c 0x0d)
    || c == 0x20
    || c == 0x85
    || c == 0xa0
    || c == 0x1680
    || (leb 0x2000 c && leb c 0x200a)
    || c == 0x2028
    || c == 0x2029
    || c == 0x202f
    || c == 0x205f
    || c == 0x3000

unfoldable pub trim_left : String → String
unfolding is_space
trim_left String.[] = ""
trim_left (String.◌∷◌ c s) =
    let rest = trim_left s in if is_space (code c) then rest else String.◌∷◌ c s

unfoldable pub trim_right : String → String
unfolding is_space
trim_right String.[] = ""
trim_right (String.◌∷◌ c s) =
    let rest = trim_right s in if is_space (code c) && rest == "" then "" else String.◌∷◌ c rest

-- `strings.TrimSpace`
unfoldable pub trim_space : String → String
unfolding trim_left trim_right
trim_space s = trim_right (trim_left s)

-- `strings.Join`
unfoldable pub join : String → List String → String
join sep [] = ""
join sep (s ∷ []) = s
join sep (s ∷ t ∷ ss) = s <> (sep <> join sep (t ∷ ss))

-- The letter of `ls` at the place of `c` in `us`.
abbrev swap_case : String → String → Char → Char
swap_case String.[] _ c = c
swap_case (String.◌∷◌ u us) String.[] c = c
swap_case (String.◌∷◌ u us) (String.◌∷◌ l ls) c = if code u == code c then l else swap_case us ls c

unfoldable pub lower_char : Runtime → Char → Char
lower_char rt c =
    if ltb (code c) 128
    then swap_case "ABCDEFGHIJKLMNOPQRSTUVWXYZ" "abcdefghijklmnopqrstuvwxyz" c
    else rt.lower_rune c

-- `strings.ToLower`
unfoldable pub to_lower : Runtime → String → String
unfolding lower_char
to_lower rt String.[] = ""
to_lower rt (String.◌∷◌ c s) = String.◌∷◌ (lower_char rt c) (to_lower rt s)
