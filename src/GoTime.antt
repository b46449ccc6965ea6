-- ===== src/GoTime.antt =====
-- What the packages take from time and from the int64 type: instants and durations.
use go_library.Prelude.{
  ℕ, ◌*◌, ◌-◌, ◌/◌, ◌^◌, ◌+◌, ◌≡◌, Bool, true, ℤ, pos, negsuc, pos_part, neg_part, ◌≤ℤ◌, ◌+ℤ◌, ◌-ℤ◌,
  ltb_ℤ, Comparable, ◌==◌, nat_eq, ◌↔◌, arith, suc, if◌then◌else◌,
}

abbrev pub max_int64 : ℤ
max_int64 = pos 9223372036854775807

abbrev pub min_int64 : ℤ
min_int64 = negsuc 9223372036854775807

abbrev pub IsInt64 : ℤ → Type 0
IsInt64 n = (min_int64 ≤ℤ n) × (n ≤ℤ max_int64)

-- Times are nanoseconds since the Unix epoch, durations are nanoseconds.
abbrev pub Time : Type 0
Time = ℤ

abbrev pub Duration : Type 0
Duration = ℤ

-- The zero `time.Time`, 1 January of the year 1.
abbrev pub zero_time : Time
zero_time = negsuc 62135596799999999999

abbrev pub int_beq : ℤ → ℤ → Bool
int_beq a b = (pos_part a + neg_part b) == (pos_part b + neg_part a)

pub int_beq_iff : (a b : ℤ) → (int_beq a b ≡ true) ↔ (a ≡ b)
int_beq_iff a b = ground arith

instance abbrev pub int_eq : Comparable ℤ
int_eq = record { agree = int_beq; agree_iff = int_beq_iff }

abbrev pub second : ℕ
second = 1000000000

-- `time.Unix(sec, 0)`
unfoldable pub unix_time : ℤ → Time
unix_time (pos n) = pos (n * second)
unix_time (negsuc n) = negsuc (suc n * second - 1)

-- `(time.Time).Unix`, which rounds down.
unfoldable pub unix_seconds : Time → ℤ
unix_seconds (pos n) = pos (n / second)
unix_seconds (negsuc n) = negsuc (n / second)

-- A difference of times saturates at the ends of int64; that of durations wraps around.
unfoldable pub saturate : ℤ → Duration
saturate d = if ltb_ℤ d min_int64 then min_int64 else if ltb_ℤ max_int64 d then max_int64 else d

unfoldable pub sub_duration : Duration → Duration → Duration
sub_duration a b =
    let d = a -ℤ b in
    if ltb_ℤ max_int64 d
    then d -ℤ pos (2 ^ 64)
    else if ltb_ℤ d min_int64
    then d +ℤ pos (2 ^ 64)
    else d

-- `time.Until`, at the given present.
unfoldable pub until : Time → Time → Duration
unfolding saturate
until now t = saturate (t -ℤ now)

-- `(time.Duration).Microseconds`, which drops the rest, as a duration.
unfoldable pub whole_micros : Duration → Duration
whole_micros (pos n) = pos (n / 1000 * 1000)
whole_micros (negsuc n) = pos 0 -ℤ pos (suc n / 1000 * 1000)
