-- ===== src/Deploy/Attempts/Stamp.antt =====
-- scripts/production_auto_deploy.py: the stamp of a clock reading is read back as its second.
use nas_platform.Common.{ℕ, ◌+◌, ◌*◌, ◌%◌, ◌≤◌, ◌<◌, ◌≡◌, refl, ◌∙◌, true, some, arith, leb}
use nas_platform.Common.Text.{is_digit, decimal}
use nas_platform.Relay.Clock.{
  DateTime, fits_mask, field, is_calendar, days_in_month, ordinal, whole_seconds,
}
use nas_platform.Deploy.Attempts.{
  stamp_mask, attempted_retention, is_recent, instant_from, stamp_instant, instant_of, two_digits,
  four_digits, timestamp,
}

-- What the clock reads: the calendar's fields, and a year of four digits.
pub record IsReading (t : DateTime) : Type 0 where
  pub on_calendar : is_calendar t.year t.month t.day t.hour t.minute t.second ≡ true
  pub four : 1000 ≤ t.year
  pub micro : t.microsecond < 1000000

two : (n : ℕ) → n < 100 → decimal 0 (two_digits n) ≡ n
unfolding decimal
two n h = omega arith

four : (n : ℕ) → n < 10000 → decimal 0 (four_digits n) ≡ n
unfolding decimal
four n h = omega arith

days_in_month-le : (y m : ℕ) → days_in_month y m ≤ 31
unfolding days_in_month
days_in_month-le y m = ground arith

-- The fields that the calendar accepts are small.
pub record IsSmall (t : DateTime) : Type 0 where
  pub year : t.year < 10000
  pub month : t.month < 100
  pub day : t.day < 100
  pub hour : t.hour < 100
  pub minute : t.minute < 100
  pub second : t.second < 100

reading-IsSmall : (t : DateTime) → IsReading t → IsSmall t
unfolding is_calendar
reading-IsSmall t r =
    let c = r.on_calendar in let d = days_in_month-le t.year t.month in ground arith

digit : (n : ℕ) → is_digit (b'0' + n % 10) ≡ true
unfolding is_digit
digit n = ground arith

pub timestamp-fits : (t : DateTime) → fits_mask stamp_mask (timestamp t) ≡ true
unfolding fits_mask timestamp
timestamp-fits t = simp digit

stamp_fields :
    (t : DateTime)
    → stamp_instant (timestamp t)
      ≡ instant_from
          (decimal 0 (four_digits t.year))
          (decimal 0 (two_digits t.month))
          (decimal 0 (two_digits t.day))
          (decimal 0 (two_digits t.hour))
          (decimal 0 (two_digits t.minute))
          (decimal 0 (two_digits t.second))
unfolding stamp_instant field timestamp
stamp_fields t = refl

-- The start of the second that the clock reads, in microseconds.
abbrev pub second_of : DateTime → ℕ
second_of t = whole_seconds (ordinal t.year t.month t.day) t.hour t.minute t.second * 1000000

instant_from-reading :
    (t : DateTime)
    → IsReading t
    → instant_from t.year t.month t.day t.hour t.minute t.second ≡ some (second_of t)
unfolding instant_from
instant_from-reading t r = rw (r.on_calendar) refl

pub stamp_instant-timestamp :
    (t : DateTime) → IsReading t → stamp_instant (timestamp t) ≡ some (second_of t)
stamp_instant-timestamp t r =
    let s = reading-IsSmall t r in
    stamp_fields t
    ∙ rw
        (
          four t.year s.year,
          two t.month s.month,
          two t.day s.day,
          two t.hour s.hour,
          two t.minute s.minute,
          two t.second s.second,
        )
        (instant_from-reading t r)

recent :
    (t : DateTime) → IsReading t → leb (instant_of t) (second_of t + attempted_retention) ≡ true
unfolding instant_of
recent t r = let m = r.micro in ground arith

-- What is stamped now is recent.
pub is_recent-timestamp : (t : DateTime) → IsReading t → is_recent t (some (timestamp t)) ≡ true
unfolding is_recent
is_recent-timestamp t r = rw (stamp_instant-timestamp t r, is_recent) (recent t r)
