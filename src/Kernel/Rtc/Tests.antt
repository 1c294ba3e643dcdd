-- ===== src/Kernel/Rtc/Tests.antt =====
-- Dates, and the theorems of kernel/rtc.c at them.
use oxalyn.Base.{ℕ, ◌+◌, ◌%◌, ◌≡◌, refl, if◌then◌else◌, ◌==◌, arith}
use oxalyn.Kernel.Rtc.{DateTime, rtc_read, rtc_timestamp, rtc_text, stamp}
use oxalyn.Kernel.Rtc.Calendar.{IsDate, seconds, parse, rtc_timestamp_lem, parse-rtc_text}

-- The registers on 2025-07-27 14:35:09, a Sunday.
abbrev clock : ℕ → ℕ
clock port =
    if port == 0x60
    then 9
    else if port == 0x61
    then 35
    else if port == 0x62
    then 14
    else if port == 0x64
    then 27
    else if port == 0x65
    then 7
    else if port == 0x66
    then 25
    else 0

rtc_timestamp_lem_example :
    IsDate (rtc_read clock)
    × (rtc_timestamp clock + (if (rtc_read clock).year % 4 == 0 then 0 else 86400)
        ≡ seconds (rtc_read clock))
rtc_timestamp_lem_example = rtc_timestamp_lem clock

abbrev july : DateTime
july = record { sec = 9; min = 35; hour = 14; wday = 0; mday = 27; month = 7; year = 2025 }

july-IsDate : IsDate july
july-IsDate = record {
  sec_in = omega arith;
  min_in = omega arith;
  hour_in = omega arith;
  mday_in = (omega arith, omega arith);
  month_in = (omega arith, omega arith);
  year_in = (omega arith, omega arith);
}

parse-rtc_text_example : parse 0 (rtc_text july) ≡ july
parse-rtc_text_example = parse-rtc_text july july-IsDate

-- The last day of 2000 and the first of 2001 have the same number.
collision :
    stamp (record july { mday = 31; month = 12; year = 2000 })
    ≡ stamp (record july { mday = 1; month = 1; year = 2001 })
unfolding stamp
collision = refl
