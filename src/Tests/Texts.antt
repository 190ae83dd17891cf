-- ===== src/Tests/Texts.antt =====
-- Runs of the functions on dates and texts.
use elastic_job_lite.Prelude.{
  ℕ, ◌≡◌, true, false, some, List, arith, codes, ◌≤◌, ◌%◌, ◌*◌, ◌+◌, ◌/◌,
}
use elastic_job_lite.Util.Formatter.{Date, date_time_formatter, hour12}
use elastic_job_lite.Util.Formatter.Clock.{
  IsCalendar, read_stamp, date_time_formatter_lem, hour12_bounds,
}
use elastic_job_lite.Status.Config.Port.{port_valid, port_valid-digits}

-- 2018-03-07 09:05:00
abbrev morning : ℕ → Date
morning t = record { full_year = 2018; month = 2; date = 7; hours = 9; minutes = 5; seconds = 0 }

morning-IsCalendar : IsCalendar (morning 0)
morning-IsCalendar = record {
  year_from = omega arith;
  year_below = omega arith;
  month_below = omega arith;
  date_below = omega arith;
  hours_below = omega arith;
  minutes_below = omega arith;
  seconds_below = omega arith;
}

hour12_bounds_example : (1 ≤ hour12 13) × (hour12 13 ≤ 12) × (13 ≡ hour12 13 % 12 + 13 / 12 * 12)
hour12_bounds_example = hour12_bounds 13 (omega arith)

abbrev long_message : List ℕ
long_message = codes "It's lost:\r\nthe connection to the registry center is closed"

port_valid-digits_example :
    (port_valid (codes "65536") ≡ false) × (port_valid (codes "-65536") ≡ true)
port_valid-digits_example = port_valid-digits b'6' (codes "5536") (omega arith)

date_time_formatter_lem_example :
    (date_time_formatter morning (some 0) ≡ codes "2018-03-07 09:05:00")
    × (read_stamp (date_time_formatter morning (some 0)) ≡ some (morning 0))
date_time_formatter_lem_example =
    date_time_formatter_lem morning (some 0) (λ t h. morning-IsCalendar)
