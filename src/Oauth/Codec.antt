-- ===== src/Oauth/Codec.antt =====
-- What the oauth package takes from encoding/json, strconv, net/url and crypto/sha256. A JSON text is
-- known by the document that it denotes; the scanner and the printer of texts are parameters.
use go_library.Prelude.{ℕ, ◌≡◌, String, Bool, Option, some, List, ℤ, nat_eq, string_eq}
unfoldable pub use go_library.GoTime.{unix_time, unix_seconds, saturate, sub_duration, until}
pub use go_library.GoTime.{
  max_int64, min_int64, IsInt64, Time, Duration, zero_time, int_beq, int_eq, second,
}

-- A byte string.
abbrev pub Bytes : Type 0
Bytes = List ℕ

-- A float64, as its 64 bits.
abbrev pub Float64 : Type 0
Float64 = ℕ

-- A JSON value that is a member of an object. A number keeps its literal; an array or an object in
-- this place is not looked into.
pub data Json : Type 0 where
  null : Json
  boolean : Bool → Json
  number : String → Json
  string : String → Json
  composite : Json

-- A JSON text: an object with its members in order, null, or anything else.
pub data Document : Type 0 where
  object : List (String × Json) → Document
  null_document : Document
  other_document : Document

-- `decode` scans a text (none on a syntax error) and `encode` prints an object; `equal_fold` is the
-- comparison by which a decoder falls back on a struct field of another case; `parse_int` and
-- `format_int` are `strconv.ParseInt(s, 10, 64)` and its inverse, `parse_float` is
-- `strconv.ParseFloat(s, 64)`, and `duration_of_seconds f` is `time.Duration(f * float64(time.Second))`;
-- `text_of` reads bytes as a text; `decode_failure` is the text of the error of `json.Unmarshal`; `url_host` is the host of `url.Parse`, none where that fails.
pub record Codec : Type 0 where
  pub decode : Bytes → Option Document
  pub encode : List (String × Json) → Bytes
  pub equal_fold : String → String → Bool
  pub parse_int : String → Option ℤ
  pub format_int : ℤ → String
  pub parse_float : String → Option Float64
  pub duration_of_seconds : Float64 → ℤ
  pub text_of : Bytes → String
  pub decode_failure : Bytes → String
  pub url_host : String → Option String
  pub sha256 : String → List ℕ

-- What is documented of the printers and their readers.
pub record IsLawfulCodec (cx : Codec) : Type 0 where
  pub decode-encode : (ms : List (String × Json)) → cx.decode (cx.encode ms) ≡ some (object ms)
  pub parse_int-format_int : (n : ℤ) → IsInt64 n → cx.parse_int (cx.format_int n) ≡ some n
