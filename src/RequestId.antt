-- ===== src/RequestId.antt =====
-- requestid/requestid.go: random version 4 UUIDs. The sixteen bytes that `rand.Read` fills in are an
-- argument, or none where it fails; a byte is a number below 256.
pub mod Bits
pub mod Format
use Prim.Native.Nat.{bit_and, bit_or}
use Prim.Native.Char.{Char}
use Prim.Native.String
use go_library.Prelude.{
  ℕ, zero, suc, ◌-◌, ◌/◌, String, ◌<>◌, Option, none, some, List, [], ◌∷◌, set, take, drop,
}

-- `b[i]` of an array; the index is in range in all uses.
abbrev pub at : List ℕ → ℕ → ℕ
at [] i = 0
at (x ∷ xs) zero = x
at (x ∷ xs) (suc i) = at xs i

-- `b[lo:hi]`
abbrev pub slice : List ℕ → ℕ → ℕ → List ℕ
slice b lo hi = take (hi - lo) (drop lo b)

-- The character at an index of `hextable`.
abbrev digit_at : String → ℕ → Char
digit_at String.[] i = "0"
digit_at (String.◌∷◌ c s) zero = c
digit_at (String.◌∷◌ c s) (suc i) = digit_at s i

unfoldable pub hex_digit : ℕ → Char
hex_digit v = digit_at "0123456789abcdef" v

-- `hex.Encode`: two digits for each byte.
unfoldable pub hex : List ℕ → String
unfolding hex_digit
hex [] = ""
hex (v ∷ vs) = String.◌∷◌ (hex_digit (v / 16)) (String.◌∷◌ (hex_digit (bit_and v 0x0f)) (hex vs))

-- The version and the variant, written over the random bits.
unfoldable pub stamp : List ℕ → List ℕ
stamp b =
    let b' = set b 6 (bit_or (bit_and (at b 6) 0x0f) 0x40) in
    set b' 8 (bit_or (bit_and (at b' 8) 0x3f) 0x80)

-- The five groups, with a dash at each of the indices 8, 13, 18 and 23.
unfoldable pub format : List ℕ → String
unfolding hex
format b =
    hex (slice b 0 4)
    <> ("-"
        <> (hex (slice b 4 6)
            <> ("-"
                <> (hex (slice b 6 8)
                    <> ("-" <> (hex (slice b 8 10) <> ("-" <> hex (slice b 10 16))))))))

-- The text of the stamped bytes: `New` after a read that succeeds.
unfoldable pub uuid : List ℕ → String
unfolding stamp format
uuid b = format (stamp b)

-- `New`; none is the panic on a failed read.
unfoldable pub new : Option (List ℕ) → Option String
unfolding uuid
new none = none
new (some b) = some (uuid b)
