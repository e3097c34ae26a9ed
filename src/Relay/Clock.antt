-- ===== src/Relay/Clock.antt =====
-- Time in services/dozzle/alert_relay.py: `parse_timestamp`, `datetime_nanoseconds`, `utc_day`, and
-- the parts of Python's `datetime` that they use. Every clock reading is UTC, as `utc_now` makes it,
-- so the checks of the offset are left out.
use nas_platform.Common.{
  ℕ, zero, suc, ◌+◌, ◌-◌, ◌*◌, ◌/◌, ◌%◌, ◌^◌, Bool, true, false, ◌&&◌, ◌||◌, Option, none, some, [],
  ◌∷◌, ◌++◌, ltb, leb, ◌==◌, if◌then◌else◌, length, take, drop, all, not,
}
use nas_platform.Common.Text.{Text, codes, text_eq, is_digit, decimal, decimal_text}

-- A `datetime` in UTC.
pub record DateTime : Type 0 where
  pub year : ℕ
  pub month : ℕ
  pub day : ℕ
  pub hour : ℕ
  pub minute : ℕ
  pub second : ℕ
  pub microsecond : ℕ

unfoldable pub is_leap : ℕ → Bool
is_leap y = y % 4 == 0 && (not (y % 100 == 0) || y % 400 == 0)

-- Days before the first of a month in a year that is not a leap year.
unfoldable pub days_before_common : ℕ → ℕ
days_before_common m =
    if m == 1
    then 0
    else if m == 2
    then 31
    else if m == 3
    then 59
    else if m == 4
    then 90
    else if m == 5
    then 120
    else if m == 6
    then 151
    else if m == 7
    then 181
    else if m == 8
    then 212
    else if m == 9
    then 243
    else if m == 10
    then 273
    else if m == 11
    then 304
    else 334

unfoldable pub days_in_month : ℕ → ℕ → ℕ
unfolding is_leap
days_in_month y m =
    if m == 2
    then (if is_leap y then 29 else 28)
    else if m == 4 || m == 6 || m == 9 || m == 11
    then 30
    else 31

-- date.toordinal(): 1 is the first of January of the year 1
unfoldable pub ordinal : ℕ → ℕ → ℕ → ℕ
unfolding is_leap days_before_common
ordinal y m d =
    let p = y - 1 in
    p * 365
    + p / 4
    - p / 100
    + p / 400
    + days_before_common m
    + (if ltb 2 m && is_leap y then 1 else 0)
    + d

abbrev pub whole_seconds : ℕ → ℕ → ℕ → ℕ → ℕ
whole_seconds days h m s = (days - 1) * 86400 + h * 3600 + m * 60 + s

-- What the `datetime` constructor accepts.
unfoldable pub is_calendar : ℕ → ℕ → ℕ → ℕ → ℕ → ℕ → Bool
unfolding days_in_month
is_calendar y mo d h mi s =
    leb 1 y
    && leb y 9999
    && leb 1 mo
    && leb mo 12
    && leb 1 d
    && leb d (days_in_month y mo)
    && leb h 23
    && leb mi 59
    && leb s 59

-- A digit where the mask has a `9`, the mask's own character elsewhere.
unfoldable pub fits_mask : Text → Text → Bool
fits_mask [] [] = true
fits_mask (m ∷ mask) (c ∷ s) = (if m == b'9' then is_digit c else c == m) && fits_mask mask s
fits_mask _ _ = false

abbrev instant_mask : Text
instant_mask = codes "9999-99-99T99:99:99"

-- The group `fraction` of the pattern without its point, for what follows the instant:
-- `Z`, or a point, one to nine digits and `Z`.
unfoldable pub fraction_digits : Text → Option Text
fraction_digits [] = none
fraction_digits (c ∷ rest) =
    let n = length rest - 1 in
    let body = take n rest in
    if c == b'Z'
    then (if length rest == 0 then some [] else none)
    else if c == b'.'
        && leb 1 n
        && leb n 9
        && all is_digit body
        && text_eq (drop n rest) (codes "Z")
    then some body
    else none

unfoldable pub field : ℕ → ℕ → Text → ℕ
field start size value = decimal 0 (take size (drop start value))

unfoldable pub zeros : ℕ → Text
zeros zero = []
zeros (suc k) = b'0' ∷ zeros k

-- f"{n:0{width}d}"
unfoldable pub padded : ℕ → ℕ → Text
unfolding zeros decimal_text
padded width n = zeros (width - length (decimal_text n)) ++ decimal_text n

unfoldable pub canonical : ℕ → ℕ → ℕ → ℕ → ℕ → ℕ → Text → Text
canonical y mo d h mi s fraction =
    padded 4 y
    ++ codes "-"
    ++ padded 2 mo
    ++ codes "-"
    ++ padded 2 d
    ++ codes "T"
    ++ padded 2 h
    ++ codes ":"
    ++ padded 2 mi
    ++ codes ":"
    ++ padded 2 s
    ++ (if length fraction == 0 then [] else b'.' ∷ fraction)
    ++ codes "Z"

-- parse_timestamp: nanoseconds since the first instant of the year 1, `none` for a ValueError
unfoldable pub parse_timestamp : Text → Option ℕ
unfolding fits_mask fraction_digits field is_calendar ordinal canonical
parse_timestamp value =
    let y = field 0 4 value in
    let mo = field 5 2 value in
    let d = field 8 2 value in
    let h = field 11 2 value in
    let mi = field 14 2 value in
    let s = field 17 2 value in
    if fits_mask instant_mask (take 19 value)
    then elim (fraction_digits (drop 19 value)) [
      | none ↦ none
      | some fraction ↦
          if is_calendar y mo d h mi s && text_eq (canonical y mo d h mi s fraction) value
          then some (
              whole_seconds (ordinal y mo d) h mi s * 1000000000
              + decimal 0 fraction * 10 ^ (9 - length fraction))
          else none
    ]
    else none

unfoldable pub valid_timestamp : Text → Bool
unfolding parse_timestamp
valid_timestamp value = elim (parse_timestamp value) [ none ↦ false | some n ↦ true ]

-- datetime_nanoseconds
unfoldable pub datetime_nanoseconds : DateTime → ℕ
unfolding ordinal
datetime_nanoseconds t =
    whole_seconds (ordinal t.year t.month t.day) t.hour t.minute t.second * 1000000000
    + t.microsecond * 1000

-- utc_day
unfoldable pub utc_day : DateTime → Text
unfolding padded
utc_day t = padded 4 t.year ++ codes "-" ++ padded 2 t.month ++ codes "-" ++ padded 2 t.day
