-- ===== src/Kernel/Rtc/Calendar.antt =====
-- The timestamp against a count of the days, and the text against its reading.
use oxalyn.Base.{
  ℕ, zero, suc, ◌+◌, ◌-◌, ◌*◌, ◌/◌, ◌%◌, ◌≤◌, ◌≡◌, refl, ap, Bool, true, false, List, ◌||◌, ltb,
  ◌==◌, if◌then◌else◌, get_or, arith, inl, inr, Bool-cases, u32, add32,
}
use oxalyn.Kernel.Rtc.{
  DateTime, latched, in_bounds, rtc_read, days_in_month, add_months, day_number, stamp,
  rtc_timestamp, rtc_text,
}

abbrev leap : ℕ → Bool
leap y = y % 4 == 0

-- The days of the `n` years from 2000 on.
unfoldable pub year_days : ℕ → ℕ
year_days zero = 0
year_days (suc n) = year_days n + (if leap (2000 + n) then 366 else 365)

unfoldable pub month_length : Bool → ℕ → ℕ
month_length l m =
    if m == 2
    then (if l then 29 else 28)
    else if m == 4 || m == 6 || m == 9 || m == 11
    then 30
    else 31

-- The days of the `n` months from January on.
unfoldable pub month_days : Bool → ℕ → ℕ
unfolding month_length
month_days l zero = 0
month_days l (suc n) = month_days l n + month_length l (n + 1)

-- The seconds from the start of 2000 to the date, by the calendar.
unfoldable pub seconds : DateTime → ℕ
unfolding year_days month_days
seconds d =
    let days = year_days (d.year - 2000) + month_days (leap d.year) (d.month - 1) + (d.mday - 1) in
    days * 86400 + d.hour * 3600 + d.min * 60 + d.sec

pub record IsDate (d : DateTime) : Type 0 where
  pub sec_in : d.sec ≤ 59
  pub min_in : d.min ≤ 59
  pub hour_in : d.hour ≤ 23
  pub mday_in : (1 ≤ d.mday) × (d.mday ≤ 31)
  pub month_in : (1 ≤ d.month) × (d.month ≤ 12)
  pub year_in : (2000 ≤ d.year) × (d.year ≤ 2099)

in_bounds-IsDate : (d : DateTime) → IsDate (in_bounds d)
unfolding in_bounds
in_bounds-IsDate d = ground arith

year_days_lem : (n : ℕ) → year_days n ≡ n * 365 + (n + 3) / 4
unfolding year_days
year_days_lem zero = omega arith
year_days_lem (suc n) = let ih = year_days_lem n in ground arith

table_lem : (m : ℕ) → 1 ≤ m → m ≤ 12 → get_or days_in_month m 0 ≡ month_length false m
unfolding month_length
table_lem m h k = ground arith

leap_month : (n : ℕ) → month_days true n ≡ month_days false n + (if ltb 1 n then 1 else 0)
unfolding month_days month_length
leap_month zero = refl
leap_month (suc n) = let ih = leap_month n in ground arith

month_length-le : (l : Bool) (m : ℕ) → month_length l m ≤ 31
unfolding month_length
month_length-le l m = elim l [ true ↦ ground arith | false ↦ ground arith ]

month_days-le : (l : Bool) (n : ℕ) → month_days l n ≤ n * 31
unfolding month_days
month_days-le l zero = omega arith
month_days-le l (suc n) = omega (arith, month_days-le l n, month_length-le l (n + 1))

add_months_lem :
    (left n days : ℕ)
    → n + left ≤ 12
    → days ≤ 40000 + n * 31
    → add_months left (suc n) days + month_days false n ≡ days + month_days false (n + left)
unfolding add_months month_days
add_months_lem zero n days h b = let z : n + 0 ≡ n = omega arith in rw z refl
add_months_lem (suc left) n days h b =
    let entry = table_lem (suc n) (omega arith) (omega arith) in
    let small = month_length-le false (suc n) in
    let next : add32 days (get_or days_in_month (suc n) 0) ≡ days + month_length false (suc n) =
      omega arith in
    let ih =
      add_months_lem left (suc n) (days + month_length false (suc n)) (omega arith) (omega arith) in
    let shift : suc n + left ≡ n + suc left = omega arith in
    let step : month_days false (suc n) ≡ month_days false n + month_length false (n + 1) = refl in
    let one : n + 1 ≡ suc n = omega arith in
    let two : suc n + 1 ≡ suc (suc n) = omega arith in
    rw (next, two)
      (omega (arith, ih, step, ap (month_length false) one, ap (month_days false) shift))

january : (l : Bool) → month_days l 0 ≡ 0
unfolding month_days
january l = refl

-- The day number of the code, and the one of the calendar.
day_number_lem :
    (d : DateTime)
    → IsDate d
    → day_number d + (if leap d.year then 0 else 1)
      ≡ year_days (d.year - 2000) + month_days (leap d.year) (d.month - 1) + (d.mday - 1)
unfolding day_number
day_number_lem d v =
    let y = d.year - 2000 in
    let m = d.month - 1 in
    let base : u32 (y * 365 + y / 4) ≡ y * 365 + y / 4 = omega arith in
    let sum = add_months_lem m 0 (y * 365 + y / 4) (omega arith) (omega arith) in
    let small = month_days-le false m in
    let none_yet = january false in
    let plain : month_days false (0 + m) ≡ month_days false m =
      ap (month_days false) (omega arith) in
    let years = year_days_lem y in
    let leaps = leap_month m in
    elim (Bool-cases (leap d.year)) [
      | inl l ↦ rw (base, l) (ground arith)
      | inr l ↦ rw (base, l) (ground arith)
    ]

stamp_lem : (d : DateTime) → IsDate d → stamp d + (if leap d.year then 0 else 86400) ≡ seconds d
unfolding stamp seconds
stamp_lem d v =
    let day = day_number_lem d v in
    let years = year_days_lem (d.year - 2000) in
    let months = month_days-le (leap d.year) (d.month - 1) in
    elim (Bool-cases (leap d.year)) [
      | inl l ↦ let day' = rw l at day in let months' = rw l at months in rw l (omega arith)
      | inr l ↦ let day' = rw l at day in let months' = rw l at months in rw l (omega arith)
    ]

-- rtc_timestamp is the number of seconds from the start of 2000 to the date that rtc_read gives,
-- by the calendar, if the year is divisible by 4, and one day less in every other year. The date
-- that rtc_read gives is in the bounds of a date, whatever the device answers.
pub rtc_timestamp_lem :
    (device : ℕ → ℕ)
    → IsDate (rtc_read device)
      × (rtc_timestamp device + (if (rtc_read device).year % 4 == 0 then 0 else 86400)
          ≡ seconds (rtc_read device))
unfolding rtc_timestamp rtc_read
rtc_timestamp_lem device =
    let v = in_bounds-IsDate (latched device) in (v, stamp_lem (in_bounds (latched device)) v)

abbrev number2 : ℕ → ℕ → ℕ
number2 a b = (a - 48) * 10 + (b - 48)

-- The date that a text of the form `2025-07-27 14:35:09` shows, with `wday` as given.
unfoldable pub parse : ℕ → List ℕ → DateTime
parse wday text =
    let two = λ (i : ℕ). number2 (get_or text i 0) (get_or text (i + 1) 0) in
    record {
      sec = two 17;
      min = two 14;
      hour = two 11;
      wday = wday;
      mday = two 8;
      month = two 5;
      year = two 0 * 100 + two 2;
    }

-- The text of a date shows that date: the date can be read off it (but for the day of the week,
-- which it does not hold).
pub parse-rtc_text : (d : DateTime) → IsDate d → parse d.wday (rtc_text d) ≡ d
unfolding parse rtc_text
parse-rtc_text d v = ground arith
