-- ===== src/Tests/PlainCodec.antt =====
-- A codec that keeps its promises, for the runs of oauth: texts are lists of code points with an end
-- mark, integers are counted out.
use Prim.Native.Nat.{Ordering, compare}
use Prim.Native.Char.{Char, char, code, IsLt}
use go_library.Prelude.{
  ℕ, zero, suc, ◌*◌, ◌≡◌, refl, ap, String, true, false, Option, none, some, List, [], ◌∷◌, ℤ, pos,
  negsuc, ◌==◌, string_eq, nat_eq, if◌then◌else◌,
}
use go_library.Oauth.Codec.{
  Bytes, Json, null, boolean, number, string, composite, Document, object, Codec, IsLawfulCodec,
}

abbrev Both : Ordering → Ordering → Type 0
Both Ordering.lt o = IsLt o
Both Ordering.eq _ = ⊥
Both Ordering.gt _ = ⊥

abbrev IsScalarOf : Ordering → Ordering → Ordering → Type 0
IsScalarOf Ordering.lt _ _ = Unit
IsScalarOf Ordering.eq o p = Both o p
IsScalarOf Ordering.gt o p = Both o p

abbrev lt? : (o : Ordering) → Option (IsLt o)
lt? Ordering.lt = some tt
lt? Ordering.eq = none
lt? Ordering.gt = none

abbrev both? : (o p : Ordering) → Option (Both o p)
both? Ordering.lt p = lt? p
both? Ordering.eq _ = none
both? Ordering.gt _ = none

abbrev scalar? : (o p q : Ordering) → Option (IsScalarOf o p q)
scalar? Ordering.lt _ _ = some tt
scalar? Ordering.eq p q = both? p q
scalar? Ordering.gt p q = both? p q

lt_lem : (o : Ordering) (x : IsLt o) → lt? o ≡ some x
lt_lem Ordering.lt x = refl
lt_lem Ordering.eq x = absurd x
lt_lem Ordering.gt x = absurd x

both_lem : (o p : Ordering) (x : Both o p) → both? o p ≡ some x
both_lem Ordering.lt p x = lt_lem p x
both_lem Ordering.eq _ x = absurd x
both_lem Ordering.gt _ x = absurd x

scalar_lem : (o p q : Ordering) (x : IsScalarOf o p q) → scalar? o p q ≡ some x
scalar_lem Ordering.lt _ _ x = refl
scalar_lem Ordering.eq p q x = both_lem p q x
scalar_lem Ordering.gt p q x = both_lem p q x

abbrev with_char :
    (n : ℕ) → Option (IsScalarOf (compare n 55296) (compare 57343 n) (compare n 1114112)) → Char
with_char n none = char 0 tt
with_char n (some x) = char n x

abbrev char_of : ℕ → Char
char_of n = with_char n (scalar? (compare n 55296) (compare 57343 n) (compare n 1114112))

char_of-code : (c : Char) → char_of (code c) ≡ c
char_of-code (char n x) = ap (with_char n) (scalar_lem _ _ _ x)

abbrev put : String → Bytes → Bytes
put String.[] k = 0 ∷ k
put (String.◌∷◌ c s) k = suc (code c) ∷ put s k

abbrev get : Bytes → String × Bytes
get [] = ("", [])
get (zero ∷ k) = ("", k)
get (suc n ∷ k) = let (s, r) = get k in (String.◌∷◌ (char_of n) s, r)

get-put : (s : String) (k : Bytes) → get (put s k) ≡ (s, k)
get-put String.[] k = refl
get-put (String.◌∷◌ c s) k = rw (get-put s k, char_of-code c)

abbrev put_json : Json → Bytes → Bytes
put_json null k = 0 ∷ k
put_json (boolean false) k = 1 ∷ k
put_json (boolean true) k = 2 ∷ k
put_json (number s) k = 3 ∷ put s k
put_json (string s) k = 4 ∷ put s k
put_json composite k = 5 ∷ k

abbrev get_text : (String → Json) → Bytes → Json × Bytes
get_text f k = let (s, r) = get k in (f s, r)

abbrev get_json : Bytes → Json × Bytes
get_json (zero ∷ k) = (null, k)
get_json (suc zero ∷ k) = (boolean false, k)
get_json (suc (suc zero) ∷ k) = (boolean true, k)
get_json (suc (suc (suc zero)) ∷ k) = get_text number k
get_json (suc (suc (suc (suc zero))) ∷ k) = get_text string k
get_json (_ ∷ k) = (composite, k)
get_json [] = (null, [])

get_json-put_json : (j : Json) (k : Bytes) → get_json (put_json j k) ≡ (j, k)
get_json-put_json null k = refl
get_json-put_json (boolean false) k = refl
get_json-put_json (boolean true) k = refl
get_json-put_json (number s) k = rw (get-put s k)
get_json-put_json (string s) k = rw (get-put s k)
get_json-put_json composite k = refl

abbrev size : List (String × Json) → ℕ
size [] = 0
size (m ∷ ms) = suc (size ms)

abbrev put_members : List (String × Json) → Bytes
put_members [] = []
put_members ((key, j) ∷ ms) = put key (put_json j (put_members ms))

abbrev get_members : ℕ → Bytes → List (String × Json)
get_members zero k = []
get_members (suc n) k =
    let (key, r) = get k in let (j, r') = get_json r in (key, j) ∷ get_members n r'

get_members-put_members : (ms : List (String × Json)) → get_members (size ms) (put_members ms) ≡ ms
get_members-put_members [] = refl
get_members-put_members ((key, j) ∷ ms) = rw (
  get-put key (put_json j (put_members ms)),
  get_json-put_json j (put_members ms),
  get_members-put_members ms,
)

abbrev encode : List (String × Json) → Bytes
encode ms = size ms ∷ put_members ms

abbrev decode : Bytes → Option Document
decode [] = none
decode (n ∷ k) = some (object (get_members n k))

abbrev tally : ℕ → String
tally zero = ""
tally (suc n) = String.◌∷◌ "a" (tally n)

abbrev count : String → ℕ
count String.[] = 0
count (String.◌∷◌ c s) = suc (count s)

count-tally : (n : ℕ) → count (tally n) ≡ n
count-tally zero = refl
count-tally (suc n) = ap suc (count-tally n)

abbrev format_int : ℤ → String
format_int (pos n) = String.◌∷◌ "+" (tally n)
format_int (negsuc n) = String.◌∷◌ "-" (tally n)

abbrev parse_int : String → Option ℤ
parse_int String.[] = none
parse_int (String.◌∷◌ c s) = some (if code c == 43 then pos (count s) else negsuc (count s))

parse_int-format_int : (n : ℤ) → parse_int (format_int n) ≡ some n
parse_int-format_int (pos n) = ap (λ m. some (pos m)) (count-tally n)
parse_int-format_int (negsuc n) = ap (λ m. some (negsuc m)) (count-tally n)

abbrev pub plain : Codec
plain = record {
  decode = decode;
  encode = encode;
  equal_fold = λ a b. a == b;
  parse_int = parse_int;
  format_int = format_int;
  parse_float = λ s. if s == "3600" then some 3600 else none;
  duration_of_seconds = λ f. pos (f * 1000000000);
  text_of = λ b. let (s, _) = get b in s;
  decode_failure = λ b. "unexpected end of JSON input";
  url_host = λ s. some "login.example.com";
  sha256 = λ s. 0 ∷ 1 ∷ 2 ∷ 3 ∷ 4 ∷ 5 ∷ 6 ∷ 7 ∷ 8 ∷ [];
}

pub plain-IsLawfulCodec : IsLawfulCodec plain
plain-IsLawfulCodec = record {
  decode-encode = λ ms. ap (λ x. some (object x)) (get_members-put_members ms);
  parse_int-format_int = λ n i. parse_int-format_int n;
}
