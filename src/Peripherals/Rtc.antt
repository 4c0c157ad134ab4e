-- ===== src/Peripherals/Rtc.antt =====
-- The real-time clock: peripherals/rtc.h and rtc.cpp.
pub mod Calendar
pub mod Gregorian
use rp2040_simlator.Base.{
  ℕ, zero, suc, ◌+◌, ◌-◌, ◌*◌, ◌/◌, ◌%◌, ◌^◌, Bool, true, false, not, ◌&&◌, ◌||◌, List, [], ◌∷◌,
  ltb, leb, ◌==◌, if◌then◌else◌, get_or, u32, u64, bit_and, bit_or, and_not, test_bit, of_bool,
}
use rp2040_simlator.Base.Bits.{set_bit}
use rp2040_simlator.Core.Bus.{BusStatus, BusResult, good}
use rp2040_simlator.Core.Interrupts.{Cores, pend_all, clear_all}
use rp2040_simlator.Peripherals.Pacing.{drain}

-- RTC_IRQ is exception 41.
abbrev pub k_irq : ℕ
k_irq = 41

pub record DateTime : Type 0 where
  pub year : ℕ
  pub month : ℕ
  pub day : ℕ
  pub dotw : ℕ
  pub hour : ℕ
  pub min : ℕ
  pub sec : ℕ

abbrev pub fresh_date : DateTime
fresh_date = record { year = 0; month = 1; day = 1; dotw = 0; hour = 0; min = 0; sec = 0 }

pub record Rtc : Type 0 where
  pub rtc_hz : ℕ
  pub sys_hz : ℕ
  pub clkdiv_m1 : ℕ
  pub setup0 : ℕ
  pub setup1 : ℕ
  pub enabled : Bool
  pub now : DateTime
  pub irq_setup0 : ℕ
  pub irq_setup1 : ℕ
  pub intr : ℕ
  pub inte : ℕ
  pub intf : ℕ
  pub sub_accum : ℕ
  pub div_counter : ℕ
  pub alarm_matched : Bool
  pub nvic : List ℕ
  pub cpus : Cores

abbrev pub month_table : List ℕ
month_table = 31 ∷ 28 ∷ 31 ∷ 30 ∷ 31 ∷ 30 ∷ 31 ∷ 31 ∷ 30 ∷ 31 ∷ 30 ∷ 31 ∷ []

abbrev pub is_leap : ℕ → Bool
is_leap year = year % 4 == 0 && (not (year % 100 == 0) || (year % 400 == 0))

-- `month - 1` is a subtraction on unsigned.
unfoldable pub days_in_month : ℕ → ℕ → ℕ
days_in_month year month =
    if month == 2 && is_leap year then 29 else get_or month_table (u32 (month + 2 ^ 32 - 1) % 12) 0

unfoldable pub pack_date : DateTime → ℕ
pack_date t = t.year % 2 ^ 12 * 2 ^ 12 + t.month % 2 ^ 4 * 2 ^ 8 + t.day % 2 ^ 5

unfoldable pub pack_time : DateTime → ℕ
pack_time t =
    t.dotw % 2 ^ 3 * 2 ^ 24 + t.hour % 2 ^ 5 * 2 ^ 16 + t.min % 2 ^ 6 * 2 ^ 8 + t.sec % 2 ^ 6

-- The date of the next second, by the carries of `tick_second`.
unfoldable pub next_day : DateTime → DateTime
next_day t =
    if leb (u32 (t.day + 1)) (days_in_month t.year t.month)
    then record t { day = u32 (t.day + 1) }
    else if leb (u32 (t.month + 1)) 12
    then record t { day = 1; month = u32 (t.month + 1) }
    else record t { day = 1; month = 1; year = u32 (t.year + 1) }

unfoldable pub next_second : DateTime → DateTime
next_second t =
    if ltb (u32 (t.sec + 1)) 60
    then record t { sec = u32 (t.sec + 1) }
    else if ltb (u32 (t.min + 1)) 60
    then record t { sec = 0; min = u32 (t.min + 1) }
    else if ltb (u32 (t.hour + 1)) 24
    then record t { sec = 0; min = 0; hour = u32 (t.hour + 1) }
    else next_day (record t { sec = 0; min = 0; hour = 0; dotw = u32 (t.dotw + 1) % 7 })

-- A field of the alarm: it matches where its bit is clear.
abbrev pub field_ok : ℕ → ℕ → ℕ → ℕ → ℕ → Bool
field_ok setup enable lo width now =
    not (test_bit setup enable) || (setup / 2 ^ lo % 2 ^ width == now)

-- Whether a match is enabled in the date fields or in the time fields.
unfoldable pub armed : ℕ → ℕ → Bool
armed setup0 setup1 =
    test_bit setup0 26
    || test_bit setup0 25
    || test_bit setup0 24
    || (test_bit setup1 31 || test_bit setup1 30 || test_bit setup1 29 || test_bit setup1 28)

unfoldable pub matched : Rtc → Bool
matched r =
    let t = r.now in
    armed r.irq_setup0 r.irq_setup1
    && field_ok r.irq_setup0 26 12 12 t.year
    && field_ok r.irq_setup0 25 8 4 t.month
    && field_ok r.irq_setup0 24 0 5 t.day
    && field_ok r.irq_setup1 31 24 3 t.dotw
    && field_ok r.irq_setup1 30 16 5 t.hour
    && field_ok r.irq_setup1 29 8 6 t.min
    && field_ok r.irq_setup1 28 0 6 t.sec

-- The alarm fires when it begins to match.
unfoldable pub check_alarm : Rtc → Rtc
check_alarm r =
    let now_matched = matched r in
    let intr = if now_matched && not r.alarm_matched then set_bit r.intr 0 else r.intr in
    let mis = bit_and (bit_or intr r.intf) r.inte in
    record r {
      intr = intr;
      alarm_matched = now_matched;
      cpus = if mis == 0 then clear_all r.nvic k_irq r.cpus else pend_all r.nvic k_irq r.cpus;
    }

unfoldable pub tick_second : Rtc → Rtc
tick_second r = check_alarm (record r { now = next_second r.now })

-- One tick of the divider's clock.
unfoldable pub rtc_tick : Rtc → Rtc
rtc_tick r =
    let n = u32 (r.div_counter + 1) in
    if ltb r.clkdiv_m1 n
    then tick_second (record r { div_counter = 0 })
    else record r { div_counter = n }

unfoldable pub on_cycles : Rtc → ℕ → Rtc
on_cycles r sys_cycles =
    let acc = u64 (r.sub_accum + u64 (sys_cycles * r.rtc_hz)) in
    let (rest, r') = drain rtc_tick r.sys_hz acc acc r in
    if r.enabled then record r' { sub_accum = rest } else r

unfoldable pub set_clock_hz : Rtc → ℕ → ℕ → Rtc
set_clock_hz r rtc_hz sys_hz = record r {
  rtc_hz = if rtc_hz == 0 then 1 else rtc_hz;
  sys_hz = if sys_hz == 0 then 1 else sys_hz;
}

unfoldable pub reset : Rtc → Rtc
reset r = check_alarm (record r {
  clkdiv_m1 = 46874;
  setup0 = 0;
  setup1 = 0;
  enabled = false;
  now = fresh_date;
  irq_setup0 = 0;
  irq_setup1 = 0;
  intr = 0;
  inte = 0;
  intf = 0;
  sub_accum = 0;
  div_counter = 0;
  alarm_matched = false;
})

unfoldable pub reg_read : Rtc → ℕ → BusResult
reg_read r reg = good (
    if reg == 0x00
    then r.clkdiv_m1
    else if reg == 0x04
    then r.setup0
    else if reg == 0x08
    then r.setup1
    else if reg == 0x0C
    then (if r.enabled then 3 else 0)
    else if reg == 0x10
    then r.irq_setup0
    else if reg == 0x14
    then r.irq_setup1
    else if reg == 0x18
    then pack_date r.now
    else if reg == 0x1C
    then pack_time r.now
    else if reg == 0x20
    then r.intr
    else if reg == 0x24
    then r.inte
    else if reg == 0x28
    then r.intf
    else if reg == 0x2C
    then bit_and (bit_or r.intr r.intf) r.inte
    else 0)

-- The date that the two setup registers hold.
unfoldable pub loaded : ℕ → ℕ → DateTime
loaded s0 s1 = record {
  year = s0 / 2 ^ 12 % 2 ^ 12;
  month = s0 / 2 ^ 8 % 2 ^ 4;
  day = s0 % 2 ^ 5;
  dotw = s1 / 2 ^ 24 % 2 ^ 3;
  hour = s1 / 2 ^ 16 % 2 ^ 5;
  min = s1 / 2 ^ 8 % 2 ^ 6;
  sec = s1 % 2 ^ 6;
}

unfoldable pub write_ctrl : Rtc → ℕ → Rtc
write_ctrl r value =
    let e = record r { enabled = test_bit value 0 } in
    if test_bit value 4 then record e { now = loaded r.setup0 r.setup1; div_counter = 0 } else e

unfoldable pub reg_write : Rtc → ℕ → ℕ → BusStatus × Rtc
reg_write r reg value = (
  BusStatus.ok,
  check_alarm (
      if reg == 0x00
      then record r { clkdiv_m1 = value }
      else if reg == 0x04
      then record r { setup0 = value }
      else if reg == 0x08
      then record r { setup1 = value }
      else if reg == 0x0C
      then write_ctrl r value
      else if reg == 0x10
      then record r { irq_setup0 = value; intr = 0 }
      else if reg == 0x14
      then record r { irq_setup1 = value; intr = 0 }
      else if reg == 0x20
      then record r { intr = and_not r.intr value }
      else if reg == 0x24
      then record r { inte = value % 2 }
      else if reg == 0x28
      then record r { intf = value % 2 }
      else r),
)
