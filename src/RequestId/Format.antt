-- ===== src/RequestId/Format.antt =====
-- requestid/requestid.go: what the text of a request ID says.
use Prim.Native.Nat.{bit_and, bit_or}
use Prim.Native.Char.{Char, code}
use native.Mathlib.Nat.{zero-add, suc-add}
use mathlib.Core.List
use text.Mathlib.TextLemmas.{append-nil, nil-append, cons-append}
use go_library.Prelude.{
  length-take, length-drop, All-take, All-drop, take-append-drop, drop_all, ◌≤◌, length-set,
  All-set, ℕ, zero, suc, ◌+◌, ◌-◌, ◌*◌, ◌/◌, ◌%◌, ◌<◌, ◌≡◌, refl, ◌≢◌, ap, sym, String, ◌<>◌, Bool,
  true, false, ◌&&◌, Option, none, some, List, [], ◌∷◌, ◌++◌, length, set, take, drop, All, arith,
  leb, ◌==◌, nat_eq, if◌then◌else◌,
}
use go_library.RequestId.Bits.{
  passes_until, passes-passes_until, bit_and-low, version_bits, variant_bits,
}
use go_library.RequestId.{at, slice, hex_digit, hex, stamp, format, new}

-- A reader of UUIDs that is written from RFC 4122, for comparison.
unfoldable pub hex_value : Char → Option ℕ
hex_value c =
    if leb b'0' (code c) && leb (code c) b'9'
    then some (code c - 48)
    else if leb b'a' (code c) && leb (code c) b'f'
    then some (code c - 87)
    else none

infixl 5 ◌>>=◌
abbrev ◌>>=◌ {ℓ κ} : {A : Type ℓ} {B : Type κ} → Option A → (A → Option B) → Option B
none >>= k = none
some a >>= k = k a

-- So many bytes in hexadecimal, and the text behind them.
unfoldable pub read_bytes : ℕ → String → Option (List ℕ × String)
read_bytes zero s = some ([], s)
read_bytes (suc n) (String.◌∷◌ c (String.◌∷◌ d s)) = do
  hi ← hex_value c
  lo ← hex_value d
  rest ← read_bytes n s
  some ((hi * 16 + lo) ∷ rest.0, rest.1)
read_bytes (suc n) _ = none

unfoldable pub read_dash : String → Option String
read_dash (String.◌∷◌ c s) = if code c == b'-' then some s else none
read_dash _ = none

unfoldable pub read_end : String → Option (Unit {0})
read_end String.[] = some tt
read_end _ = none

unfoldable pub read_uuid : String → Option (List ℕ)
unfolding hex_value read_bytes read_dash read_end
read_uuid s = do
  a ← read_bytes 4 s
  b ← read_bytes 2 (← read_dash a.1)
  c ← read_bytes 2 (← read_dash b.1)
  d ← read_bytes 2 (← read_dash c.1)
  e ← read_bytes 6 (← read_dash d.1)
  _ ← read_end e.1
  some (a.0 ++ (b.0 ++ (c.0 ++ (d.0 ++ e.0))))

abbrev opt_is : Option ℕ → ℕ → Bool
opt_is none v = false
opt_is (some w) v = w == v

digit_table : passes_until (λ v. opt_is (hex_value (hex_digit v)) v) 16 ≡ true
unfolding passes_until hex_value hex_digit
digit_table = refl

opt_is→eq : (o : Option ℕ) (v : ℕ) → opt_is o v ≡ true → o ≡ some v
opt_is→eq none v h = ground arith
opt_is→eq (some w) v h = ground arith

hex_value-hex_digit : (v : ℕ) → v < 16 → hex_value (hex_digit v) ≡ some v
hex_value-hex_digit v h =
    opt_is→eq _ v (passes-passes_until (λ v. opt_is (hex_value (hex_digit v)) v) 16 v h digit_table)

-- The bytes that are written are read back, whatever follows them.
read_bytes-hex :
    (vs : List ℕ) (rest : String)
    → All (λ v. v < 256) vs
    → read_bytes (length vs) (hex vs <> rest) ≡ some (vs, rest)
unfolding read_bytes hex
read_bytes-hex [] rest h = rw nil-append
read_bytes-hex (v ∷ vs) rest (b, h) =
    rw (cons-append, cons-append)
      (rw
        (
          hex_value-hex_digit (v / 16) (omega arith),
          bit_and-low v b,
          hex_value-hex_digit (v % 16) (omega arith),
          read_bytes-hex vs rest h,
        )
        (ap (λ w. some (w ∷ vs, rest)) (omega arith)))

-- A slice and what lies behind it.
slice-append-drop : (i k : ℕ) (b : List ℕ) → take k (drop i b) ++ drop (i + k) b ≡ drop i b
slice-append-drop zero k b = rw zero-add (take-append-drop k b)
slice-append-drop (suc i) zero [] = rw suc-add
slice-append-drop (suc i) (suc k) [] = rw suc-add
slice-append-drop (suc i) k (x ∷ b) = rw suc-add (slice-append-drop i k b)

read_dash-append : (s : String) → read_dash ("-" <> s) ≡ some s
unfolding read_dash
read_dash-append s = rw (cons-append, nil-append)

module _ (i k : ℕ) (b : List ℕ) (bytes : All (λ v. v < 256) b) (h : i + k ≤ length b) where
  -- A slice that lies in the array is written by `hex` and read back.
  read_slice :
      (rest : String)
      → read_bytes k (hex (take k (drop i b)) <> rest) ≡ some (take k (drop i b), rest)
  read_slice rest =
      let piece = take k (drop i b) in
      let n : length piece ≡ k = omega (arith, length-take k (drop i b), length-drop i b) in
      rw n at (read_bytes-hex piece rest (All-take _ k (drop i b) (All-drop _ i b bytes)))

  read_last_slice : read_bytes k (hex (take k (drop i b))) ≡ some (take k (drop i b), "")
  read_last_slice = rw (append-nil (hex (take k (drop i b)))) at (read_slice "")

groups-append :
    (b : List ℕ)
    → length b ≡ 16
    → slice b 0 4 ++ (slice b 4 6 ++ (slice b 6 8 ++ (slice b 8 10 ++ slice b 10 16))) ≡ b
groups-append b n =
    let last : slice b 10 16 ≡ drop 10 b =
      rw (drop_all 16 b (omega arith), List.append-nil) at (slice-append-drop 10 6 b) in
    rw (
      last,
      slice-append-drop 8 2 b,
      slice-append-drop 6 2 b,
      slice-append-drop 4 2 b,
      slice-append-drop 0 4 b,
    )

-- The text that `format` writes is a UUID, and denotes the sixteen bytes it was made of.
pub read_uuid-format :
    (b : List ℕ) → length b ≡ 16 → All (λ v. v < 256) b → read_uuid (format b) ≡ some b
unfolding read_uuid format
read_uuid-format b n bytes =
    rw
      (
        read_slice 0 4 b bytes (omega arith),
        read_dash-append,
        read_slice 4 2 b bytes (omega arith),
        read_dash-append,
        read_slice 6 2 b bytes (omega arith),
        read_dash-append,
        read_slice 8 2 b bytes (omega arith),
        read_dash-append,
        read_last_slice 10 6 b bytes (omega arith),
      )
      (ap some (groups-append b n))

at-set_self : (b : List ℕ) (i v : ℕ) → i < length b → at (set b i v) i ≡ v
at-set_self [] i v h = absurd (omega arith)
at-set_self (x ∷ b) zero v h = refl
at-set_self (x ∷ b) (suc i) v h = at-set_self b i v (omega arith)

at-set_ne : (b : List ℕ) (i j v : ℕ) → i ≢ j → at (set b i v) j ≡ at b j
at-set_ne [] i j v h = refl
at-set_ne (x ∷ b) zero zero v h = absurd (h refl)
at-set_ne (x ∷ b) zero (suc j) v h = refl
at-set_ne (x ∷ b) (suc i) zero v h = refl
at-set_ne (x ∷ b) (suc i) (suc j) v h = at-set_ne b i j v (λ e. h (ap suc e))

at-lt : (b : List ℕ) (i : ℕ) → All (λ v. v < 256) b → at b i < 256
at-lt [] i h = omega arith
at-lt (x ∷ b) zero h = h.0
at-lt (x ∷ b) (suc i) h = at-lt b i h.1

-- RFC 4122 of the stamped bytes: the version nibble is 4, the variant bits are 10, and the other
-- bits are the random ones.
pub record IsVersion4 (b s : List ℕ) : Type 0 where
  pub version : at s 6 / 16 ≡ 4
  pub version_rest : at s 6 % 16 ≡ at b 6 % 16
  pub variant : at s 8 / 64 ≡ 2
  pub variant_rest : at s 8 % 64 ≡ at b 8 % 64
  pub others : (i : ℕ) → i ≢ 6 → i ≢ 8 → at s i ≡ at b i

abbrev version_of : ℕ → ℕ
version_of v = bit_or (bit_and v 0x0f) 0x40

abbrev variant_of : ℕ → ℕ
variant_of v = bit_or (bit_and v 0x3f) 0x80

module _ (b : List ℕ) (n : length b ≡ 16) (bytes : All (λ v. v < 256) b) where
  stamp_lem : stamp b ≡ set (set b 6 (version_of (at b 6))) 8 (variant_of (at b 8))
  unfolding stamp
  stamp_lem = rw (at-set_ne b 6 8 (version_of (at b 6)) (omega arith))

  at-stamp_version : at (stamp b) 6 ≡ version_of (at b 6)
  at-stamp_version =
      rw (stamp_lem, at-set_ne _ 8 6 (variant_of (at b 8)) (omega arith))
        (at-set_self b 6 _ (omega arith))

  at-stamp_variant : at (stamp b) 8 ≡ variant_of (at b 8)
  at-stamp_variant =
      rw stamp_lem (at-set_self _ 8 _ (omega (arith, length-set b 6 (version_of (at b 6)))))

  at-stamp_others : (i : ℕ) → i ≢ 6 → i ≢ 8 → at (stamp b) i ≡ at b i
  at-stamp_others i p q =
      rw (stamp_lem, at-set_ne _ 8 i (variant_of (at b 8)) (λ e. q (sym e)))
        (at-set_ne b 6 i _ (λ e. p (sym e)))

  stamp-IsVersion4 : IsVersion4 b (stamp b)
  stamp-IsVersion4 =
      let (a, c, _) = version_bits (at b 6) (at-lt b 6 bytes) in
      let (d, e, _) = variant_bits (at b 8) (at-lt b 8 bytes) in
      record {
        version = rw at-stamp_version a;
        version_rest = rw at-stamp_version c;
        variant = rw at-stamp_variant d;
        variant_rest = rw at-stamp_variant e;
        others = at-stamp_others;
      }

  length-stamp : length (stamp b) ≡ 16
  length-stamp = rw (stamp_lem, length-set, length-set) n

  stamp-bytes : All (λ v. v < 256) (stamp b)
  stamp-bytes =
      let (_, _, c) = version_bits (at b 6) (at-lt b 6 bytes) in
      let (_, _, e) = variant_bits (at b 8) (at-lt b 8 bytes) in
      rw stamp_lem (All-set _ _ 8 _ e (All-set _ b 6 _ c bytes))

-- On sixteen random bytes `New` returns the text of a version 4 UUID: a reader of UUIDs gets sixteen
-- bytes with the version 4 and the variant 10 from it, whose other bits are the random ones.
pub new-read_uuid :
    (b : List ℕ)
    → length b ≡ 16
    → All (λ v. v < 256) b
    → (s : String) × (new (some b) ≡ some s)
      × ((u : List ℕ) × (read_uuid s ≡ some u) × IsVersion4 b u)
unfolding new
new-read_uuid b n bytes =
    let back = read_uuid-format (stamp b) (length-stamp b n bytes) (stamp-bytes b n bytes) in
    (format (stamp b), refl, (stamp b, back, stamp-IsVersion4 b n bytes))
