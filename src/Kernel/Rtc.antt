-- ===== src/Kernel/Rtc.antt =====
-- kernel/rtc.c: the clock. The device is the function from its ports to what a read gives while the
-- latch holds the registers; the writes to the latch itself are left out.
pub mod Calendar
mod Tests
use oxalyn.Kernel.Kstring.{kstrncpy}
use oxalyn.Base.{
  ℕ, zero, suc, ◌+◌, ◌-◌, ◌*◌, ◌/◌, ◌%◌, ◌^◌, List, [], ◌∷◌, ◌&&◌, ◌||◌, ltb, ◌==◌, if◌then◌else◌,
  u8, u32, add32, get_or,
}

-- `wday` counts from Sunday, which is 0.
pub record DateTime : Type 0 where
  pub sec : ℕ
  pub min : ℕ
  pub hour : ℕ
  pub wday : ℕ
  pub mday : ℕ
  pub month : ℕ
  pub year : ℕ

unfoldable pub rtc_port_read : (ℕ → ℕ) → ℕ → ℕ
rtc_port_read device port = u8 (device port)

-- The fields as the device gives them.
unfoldable pub latched : (ℕ → ℕ) → DateTime
unfolding rtc_port_read
latched device = record {
  sec = rtc_port_read device 0x60;
  min = rtc_port_read device 0x61;
  hour = rtc_port_read device 0x62;
  wday = rtc_port_read device 0x63;
  mday = rtc_port_read device 0x64;
  month = rtc_port_read device 0x65;
  year = 2000 + rtc_port_read device 0x66;
}

unfoldable pub in_bounds : DateTime → DateTime
in_bounds d = record {
  sec = if ltb 59 d.sec then 0 else d.sec;
  min = if ltb 59 d.min then 0 else d.min;
  hour = if ltb 23 d.hour then 0 else d.hour;
  wday = if ltb 6 d.wday then 0 else d.wday;
  mday = if ltb d.mday 1 || ltb 31 d.mday then 1 else d.mday;
  month = if ltb d.month 1 || ltb 12 d.month then 1 else d.month;
  year = if ltb d.year 2000 || ltb 2099 d.year then 2025 else d.year;
}

unfoldable pub rtc_read : (ℕ → ℕ) → DateTime
unfolding latched in_bounds
rtc_read device = in_bounds (latched device)

abbrev pub days_in_month : List ℕ
days_in_month = 0 ∷ 31 ∷ 28 ∷ 31 ∷ 30 ∷ 31 ∷ 30 ∷ 31 ∷ 31 ∷ 30 ∷ 31 ∷ 30 ∷ 31 ∷ []

-- The loop over the months from `m` on, with `left` of them to go.
unfoldable pub add_months : ℕ → ℕ → ℕ → ℕ
add_months zero m days = days
add_months (suc left) m days = add_months left (m + 1) (add32 days (get_or days_in_month m 0))

unfoldable pub day_number : DateTime → ℕ
unfolding add_months
day_number d =
    let y = d.year - 2000 in
    let days = add_months (d.month - 1) 1 (u32 (y * 365 + y / 4)) in
    let leap = if ltb 2 d.month && d.year % 4 == 0 then add32 days 1 else days in
    add32 leap (d.mday - 1)

unfoldable pub stamp : DateTime → ℕ
unfolding day_number
stamp d = u32 (day_number d * 86400 + d.hour * 3600 + d.min * 60 + d.sec)

unfoldable pub rtc_timestamp : (ℕ → ℕ) → ℕ
unfolding stamp rtc_read
rtc_timestamp device = stamp (rtc_read device)

abbrev pub digit : ℕ → ℕ
digit v = 48 + v % 10

abbrev pub digits2 : ℕ → List ℕ → List ℕ
digits2 v rest = digit (v / 10) ∷ digit v ∷ rest

-- `tmp` of rtc_format, without its terminator.
unfoldable pub rtc_text : DateTime → List ℕ
rtc_text d =
    digit (d.year / 1000)
    ∷ digit (d.year / 100)
    ∷ digit (d.year / 10)
    ∷ digit d.year
    ∷ b'-'
    ∷ digits2 d.month (
        b'-'
        ∷ digits2 d.mday (b' ' ∷ digits2 d.hour (b':' ∷ digits2 d.min (b':' ∷ digits2 d.sec []))))

-- The memory after the text is copied to the address `buf`.
unfoldable pub rtc_format : DateTime → (ℕ → ℕ) → ℕ → ℕ → ℕ → ℕ
unfolding rtc_text kstrncpy
rtc_format d mem buf buflen = kstrncpy mem buf (λ i. get_or (rtc_text d) i 0) 0 buflen
